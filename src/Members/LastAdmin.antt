-- ===== src/Members/LastAdmin.antt =====
-- convex/portalMembers.ts: no handler leaves the portal without an active administrator.
use fw_gatekeeper.Prelude.{
  ℕ, zero, suc, ◌≤◌, ◌-◌, Bool, true, ◌&&◌, ◌||◌, some, List, [], ◌∷◌, ◌≡◌, ◌⊎◌, inl, inr, refl,
  sym, ap, ◌∙◌, subst, arith,
}
use fw_gatekeeper.Prelude.Tests.{Bool-cases, ltb, nat_eq, ◌==◌, ◌!=◌, bool_eq}
use fw_gatekeeper.Prelude.Lists.{All, All-map, All-filter, any, filter, take, length, sole-some}
use fw_gatekeeper.Prelude.Result.{ok}
use fw_gatekeeper.Prelude.Table.{AllBelow, get_row, patch_row, delete_row}
use fw_gatekeeper.Prelude.Ids.{HasIds, DistinctIds, found_self, HasIds-patch_row}
use fw_gatekeeper.Schema.{
  Role, role_eq, admin, PortalMember, member_row, AuthSession, session_row, Db,
}
use fw_gatekeeper.Access.{member_of}
use fw_gatekeeper.Members.Sessions.{
  max_sessions, token_budget, sessions_of, tokens_of, without_tokens, revoke_each,
  revoke_session_batch,
}
use fw_gatekeeper.Members.Rows.{patch_member}
use fw_gatekeeper.Members.Accounts.{is_admin, protect_last_admin}

-- The ids of accounts are in order, and one account is an active administrator's.
pub record HasAdministrator (db : Db) : Type 0 where
  pub ids : HasIds db.next_id db.members
  pub one : any is_admin db.members ≡ true

-- What a list has in a part of it that was picked by a test.
any-picked :
    (test : PortalMember → Bool) (n : ℕ) (xs : List PortalMember)
    → any test (take n (filter is_admin xs)) ≡ true
    → any (λ x. is_admin x && test x) xs ≡ true
unfolding any filter
any-picked test zero xs h = cc
any-picked test (suc n) [] h = cc
any-picked test (suc n) (x ∷ xs) h = elim (Bool-cases (is_admin x)) [
  | inr e ↦ rw e (any-picked test (suc n) xs (rw e at h))
  | inl e ↦ elim (Bool-cases (test x)) [
    | inl e2 ↦ ground arith
    | inr e2 ↦ let rest = any-picked test n xs (ground arith) in ground arith
  ]
]

another_stays :
    (i : ℕ) (f : PortalMember → PortalMember) (xs : List PortalMember)
    → any (λ x. is_admin x && x.id != i) xs ≡ true
    → any is_admin (patch_row i f xs) ≡ true
unfolding any patch_row
another_stays i f [] h = cc
another_stays i f (x ∷ xs) h = elim (Bool-cases (is_admin x && x.id != i)) [
  | inl e ↦ ground arith
  | inr e ↦ let rest = another_stays i f xs (ground arith) in ground arith
]

unchanged_stays :
    (t : PortalMember) (f : PortalMember → PortalMember) (xs : List PortalMember)
    → All (λ (x : PortalMember). x.id ≡ t.id → x ≡ t) xs
    → (is_admin t ≡ true → is_admin (f t) ≡ true)
    → any is_admin xs ≡ true
    → any is_admin (patch_row t.id f xs) ≡ true
unfolding any patch_row
unchanged_stays t f [] same keeps h = cc
unchanged_stays t f (x ∷ xs) (one, same) keeps h = elim (Bool-cases (x.id == t.id)) [
  | inl e ↦
      let eq : x ≡ t = one (ground arith) in
      elim (Bool-cases (is_admin x)) [
        | inl a ↦
            let k : is_admin (f x) ≡ true =
              ap (λ y. is_admin (f y)) eq ∙ keeps (ap (λ y. is_admin y) (sym eq) ∙ a) in
            ground arith
        | inr a ↦ let rest = unchanged_stays t f xs same keeps (ground arith) in ground arith
      ]
  | inr e ↦ elim (Bool-cases (is_admin x)) [
    | inl a ↦ ground arith
    | inr a ↦ let rest = unchanged_stays t f xs same keeps (ground arith) in ground arith
  ]
]

protect_lem :
    (t : PortalMember) (role : Role) (active : Bool) (db : Db)
    → protect_last_admin t role active db ≡ ok tt
    → (any (λ x. is_admin x && x.id != t.id) db.members ≡ true)
      ⊎ (is_admin t ≡ true → (active && role == admin) ≡ true)
unfolding protect_last_admin
protect_lem t role active db h =
    elim (Bool-cases
      (any (λ (a : PortalMember). a.id != t.id) (take 2 (filter is_admin db.members)))) [
        | inl other ↦ inl (any-picked (λ a. a.id != t.id) 2 db.members other)
        | inr alone ↦ inr (λ was. elim (Bool-cases (active && role == admin)) [
          | inl e ↦ e
          | inr e ↦ absurd (ground arith)
        ])
      ]

-- The account that a lookup finds is the only row of its id.
pub only_row :
    (user : ℕ) (db : Db) (t : PortalMember)
    → DistinctIds db.members
    → member_of user db ≡ ok (some t)
    → All (λ (x : PortalMember). x.id ≡ t.id → x ≡ t) db.members
only_row user db t d h =
    let mine : filter (λ (m : PortalMember). m.user_id == user) db.members ≡ t ∷ [] =
      sole-some _ t (ground arith) in
    let found : All (λ (x : PortalMember). get_row x.id db.members ≡ some x) (t ∷ []) =
      subst (All (λ (x : PortalMember). get_row x.id db.members ≡ some x)) mine (
        All-filter _ (λ (m : PortalMember). m.user_id == user) db.members
          (found_self db.members d)) in
    All-map (λ (x : PortalMember). get_row x.id db.members ≡ some x)
      (λ (x : PortalMember). x.id ≡ t.id → x ≡ t) db.members
      (λ x self e. ground (arith, found.0, self)) (found_self db.members d)

-- A write to an account that is protected leaves an administrator.
pub patch-HasAdministrator :
    (user : ℕ) (t : PortalMember) (f : PortalMember → PortalMember) (role : Role) (active : Bool)
    (db : Db)
    → HasAdministrator db
    → member_of user db ≡ ok (some t)
    → protect_last_admin t role active db ≡ ok tt
    → ((x : PortalMember) → (f x).id ≡ x.id)
    → ((active && role == admin) ≡ true → is_admin (f t) ≡ true)
    → HasAdministrator (patch_member t.id f db)
patch-HasAdministrator user t f role active db v found safe keeps becomes = record {
  ids = HasIds-patch_row db.next_id t.id f db.members keeps v.ids;
  one = elim (protect_lem t role active db safe) [
    | inl other ↦ another_stays t.id f db.members other
    | inr unchanged ↦
        unchanged_stays t f db.members (only_row user db t v.ids.distinct found)
          (λ was. becomes (unchanged was)) v.one
  ];
}

same_stays :
    (i : ℕ) (f : PortalMember → PortalMember) (xs : List PortalMember)
    → ((x : PortalMember) → is_admin (f x) ≡ is_admin x)
    → any is_admin (patch_row i f xs) ≡ any is_admin xs
unfolding any patch_row
same_stays i f [] same = refl
same_stays i f (x ∷ xs) same = elim (Bool-cases (x.id == i)) [
  | inl e ↦ rw e (rw (same x) (ap (λ b. is_admin x || b) (same_stays i f xs same)))
  | inr e ↦ rw e (ap (λ b. is_admin x || b) (same_stays i f xs same))
]

-- A write to an account that leaves who is an administrator.
pub same_patch-HasAdministrator :
    (i : ℕ) (f : PortalMember → PortalMember) (db : Db)
    → ((x : PortalMember) → (f x).id ≡ x.id)
    → ((x : PortalMember) → is_admin (f x) ≡ is_admin x)
    → HasAdministrator db
    → HasAdministrator (patch_member i f db)
same_patch-HasAdministrator i f db keeps same v = record {
  ids = HasIds-patch_row db.next_id i f db.members keeps v.ids;
  one = same_stays i f db.members same ∙ v.one;
}

-- Accounts are left as they are, and ids only go up.
pub record KeepsMembers (before after : Db) : Type 0 where
  pub members : after.members ≡ before.members
  pub next_id : before.next_id ≤ after.next_id

AllBelow-le : (n m : ℕ) (xs : List PortalMember) → n ≤ m → AllBelow n xs → AllBelow m xs
AllBelow-le n m [] h b = tt
AllBelow-le n m (x ∷ xs) h (one, b) = (omega arith, AllBelow-le n m xs h b)

pub KeepsMembers-HasAdministrator :
    (before after : Db)
    → KeepsMembers before after
    → HasAdministrator before
    → HasAdministrator after
KeepsMembers-HasAdministrator before after k v = record {
  ids = rw k.members (record {
    below = AllBelow-le before.next_id after.next_id before.members k.next_id v.ids.below;
    distinct = v.ids.distinct;
  });
  one = rw k.members v.one;
}

KeepsMembers-revoke_each :
    (sessions : List AuthSession) (budget cutoff : ℕ) (db : Db)
    → KeepsMembers db (revoke_each sessions budget cutoff db)
unfolding revoke_each
KeepsMembers-revoke_each [] budget cutoff db = record { members = refl; next_id = omega arith }
KeepsMembers-revoke_each (s ∷ sessions) budget cutoff db =
    let tokens = take (suc budget) (tokens_of s.id db) in
    let without = without_tokens (take budget tokens) db in
    let rest =
      KeepsMembers-revoke_each sessions (budget - length tokens) cutoff
        (record without { sessions = delete_row s.id without.sessions }) in
    elim (Bool-cases (ltb cutoff s.creation_time)) [
      | inl e ↦ rw e (record { members = refl; next_id = omega arith })
      | inr e ↦ elim (Bool-cases (ltb budget (length tokens))) [
        | inl e2 ↦ rw e (rw e2 (record { members = refl; next_id = omega arith }))
        | inr e2 ↦ rw e (rw e2 (record { members = rest.members; next_id = rest.next_id }))
      ]
    ]

pub KeepsMembers-revoke :
    (user cutoff : ℕ) (db : Db) → KeepsMembers db (revoke_session_batch user cutoff db).1
unfolding revoke_session_batch
KeepsMembers-revoke user cutoff db =
    KeepsMembers-revoke_each (take max_sessions (sessions_of user db)) token_budget cutoff db

revoke_each-accounts :
    (sessions : List AuthSession) (budget cutoff : ℕ) (db : Db)
    → (revoke_each sessions budget cutoff db).accounts ≡ db.accounts
unfolding revoke_each
revoke_each-accounts [] budget cutoff db = refl
revoke_each-accounts (s ∷ sessions) budget cutoff db =
    let tokens = take (suc budget) (tokens_of s.id db) in
    let without = without_tokens (take budget tokens) db in
    let rest =
      revoke_each-accounts sessions (budget - length tokens) cutoff
        (record without { sessions = delete_row s.id without.sessions }) in
    elim (Bool-cases (ltb cutoff s.creation_time)) [
      | inl e ↦ rw e refl
      | inr e ↦ elim (Bool-cases (ltb budget (length tokens))) [
        | inl e2 ↦ rw e (rw e2 refl)
        | inr e2 ↦ rw e (rw e2 rest)
      ]
    ]

-- The removal of sessions leaves the library's accounts.
pub revoke-accounts :
    (user cutoff : ℕ) (db : Db) → (revoke_session_batch user cutoff db).1.accounts ≡ db.accounts
unfolding revoke_session_batch
revoke-accounts user cutoff db =
    revoke_each-accounts (take max_sessions (sessions_of user db)) token_budget cutoff db
