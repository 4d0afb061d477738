-- ===== src/Members/Change.antt =====
-- convex/portalMembers.ts: what a change of one's own password that succeeds rests on.
use fw_gatekeeper.Prelude.{ℕ, Bool, true, false, Option, some, ◌≡◌, inl, inr, ◌∙◌, arith}
use fw_gatekeeper.Prelude.Tests.{Bool-cases}
use fw_gatekeeper.Prelude.Text.{Text}
use fw_gatekeeper.Prelude.Result.{ok, Result-cases}
use fw_gatekeeper.Prelude.Table.{patch_row}
use fw_gatekeeper.Schema.{PortalMember, AuthAccount, account_row, Db, Platform}
use fw_gatekeeper.Access.{Caller, assert_portal_member}
use fw_gatekeeper.Members.LastAdmin.{revoke-accounts}
use fw_gatekeeper.Members.Sessions.{cutoff_for, revoke_session_batch}
use fw_gatekeeper.Members.Rows.{or_zero, patch_member, assert_valid_password}
use fw_gatekeeper.Members.Password.{
  OwnPasswordAccount, Scrypt, Pause, at, password_changed, with_secret, own_account,
  get_own_account, reserve_attempt, record_verified, assert_unchanged, complete_password_change,
  change_reserved, change_password,
}
use fw_gatekeeper.Members.Cutoff.{assert_unchanged_lem}

module _ (p : Platform) (f : Text → Option ℕ) (scrypt : Scrypt) where
  -- A change that succeeded, by the stores between its transactions: the attempt was reserved in the
  -- store that the first pause leaves, the verification recorded in the one that the second leaves,
  -- and in the one that the third leaves, in which the new secret is written, the account was still
  -- the one that was read first, with the hash against which the current password was verified.
  pub record IsVerified (pause1 pause2 pause3 : Pause) (current_password new_password : Text)
      (c : Caller) (db db' : Db) : Type 0 where
    pub snapshot : OwnPasswordAccount
    pub reserved : Db
    pub recorded : Db
    pub member : PortalMember
    pub account : AuthAccount
    pub was_read : get_own_account p f c db ≡ ok snapshot
    pub is_valid : assert_valid_password new_password ≡ ok tt
    pub is_current : scrypt.verify snapshot.stored_hash current_password ≡ true
    pub is_new : scrypt.verify snapshot.stored_hash new_password ≡ false
    pub is_reserved : reserve_attempt p f snapshot (at pause1 c) (pause1.commits db) ≡ ok reserved
    pub is_recorded :
        record_verified p f snapshot (at pause2 c) (pause2.commits reserved) ≡ ok recorded
    pub may : assert_portal_member p f (at pause3 c) (pause3.commits recorded) ≡ ok member
    pub is_own : own_account member.user_id (pause3.commits recorded) ≡ ok (some account)
    pub is_same : account.id ≡ snapshot.account_id
    pub same_hash : account.secret ≡ some snapshot.stored_hash
    pub is_written :
        db'.accounts
        ≡ patch_row account.id
            (with_secret (scrypt.hash new_password))
            (pause3.commits recorded).accounts

  complete_lem :
      (expected : OwnPasswordAccount) (hash : Text) (c : Caller) (db : Db) (more : Bool) (db' : Db)
      → complete_password_change p f expected hash c db ≡ ok (more, db')
      → (m : PortalMember) × (a : AuthAccount) × (assert_unchanged p f expected c db ≡ ok (m, a))
        × (db'.accounts ≡ patch_row a.id (with_secret hash) db.accounts)
  unfolding complete_password_change
  complete_lem expected hash c db more db' h =
      elim (Result-cases (assert_unchanged p f expected c db)) [
        | inr (bad, e) ↦ absurd (ground arith)
        | inl ((m, a), e) ↦
            let cutoff = cutoff_for c.now m.user_id (or_zero m.session_revoked_at) db in
            let patched =
              patch_member m.id (password_changed cutoff (p.iso c.now))
                (record db { accounts = patch_row a.id (with_secret hash) db.accounts }) in
            let now : db'.accounts ≡ (revoke_session_batch m.user_id cutoff patched).1.accounts =
              ground arith in
            (m, a, e, now ∙ revoke-accounts m.user_id cutoff patched)
      ]

  reserved_lem :
      (pause2 pause3 : Pause) (snapshot : OwnPasswordAccount) (current_password new_password : Text)
      (c : Caller) (db : Db) (more : Bool) (db' : Db)
      → change_reserved p f scrypt pause2 pause3 snapshot current_password new_password c db
        ≡ (ok more, db')
      → (recorded : Db) × (record_verified p f snapshot (at pause2 c) (pause2.commits db)
          ≡ ok recorded)
        × (scrypt.verify snapshot.stored_hash current_password ≡ true)
        × (scrypt.verify snapshot.stored_hash new_password ≡ false)
        × (complete_password_change p f snapshot
              (scrypt.hash new_password)
              (at pause3 c)
              (pause3.commits recorded)
            ≡ ok (more, db'))
  unfolding change_reserved
  reserved_lem pause2 pause3 snapshot current_password new_password c db more db' h =
      elim (Bool-cases (scrypt.verify snapshot.stored_hash current_password)) [
        | inr e ↦ absurd (ground arith)
        | inl e ↦
            elim (Result-cases (record_verified p f snapshot (at pause2 c) (pause2.commits db))) [
              | inr (bad, e2) ↦ absurd (ground arith)
              | inl (db2, e2) ↦
                  elim (Bool-cases (scrypt.verify snapshot.stored_hash new_password)) [
                    | inl e3 ↦ absurd (ground arith)
                    | inr e3 ↦
                        elim (Result-cases (
                          complete_password_change p f snapshot (scrypt.hash new_password)
                            (at pause3 c) (pause3.commits db2))) [
                              | inr (bad, e4) ↦ absurd (ground arith)
                              | inl ((b, after), e4) ↦ (db2, e2, e, e3, ground arith)
                            ]
                  ]
            ]
      ]

  -- A change of a password that succeeds, whatever commits between its transactions, was asked for
  -- with the password whose hash the account still has in the store that the last of these commits
  -- leaves, so that a reset or another change in between is never overwritten; an attempt was reserved
  -- before; the new password is valid and another one, and its hash is written to that store's row.
  pub change_password-IsVerified :
      (pause1 pause2 pause3 : Pause) (current_password new_password : Text) (c : Caller) (db : Db)
      (more : Bool) (db' : Db)
      → change_password p f scrypt pause1 pause2 pause3 current_password new_password c db
        ≡ (ok more, db')
      → IsVerified pause1 pause2 pause3 current_password new_password c db db'
  unfolding change_password
  change_password-IsVerified pause1 pause2 pause3 current_password new_password c db more db' h =
      elim (Result-cases (get_own_account p f c db)) [
        | inr (bad, e) ↦ absurd (ground arith)
        | inl (snapshot, e) ↦ elim (Result-cases (assert_valid_password new_password)) [
          | inr (bad, e2) ↦ absurd (ground arith)
          | inl (t, e2) ↦
              elim (Result-cases (reserve_attempt p f snapshot (at pause1 c) (pause1.commits db))) [
                | inr (bad, e3) ↦ absurd (ground arith)
                | inl (db1, e3) ↦
                    let (db2, recorded, current, other, done) =
                      reserved_lem pause2 pause3 snapshot current_password new_password c db1 more
                        db' (ground arith) in
                    let (m, a, same, written) =
                      complete_lem snapshot (scrypt.hash new_password) (at pause3 c)
                        (pause3.commits db2) more db' done in
                    let (may, own, hash, id) =
                      assert_unchanged_lem p f snapshot (at pause3 c) (pause3.commits db2) m a
                        same in
                    record {
                      snapshot = snapshot;
                      reserved = db1;
                      recorded = db2;
                      member = m;
                      account = a;
                      was_read = e;
                      is_valid = e2;
                      is_current = current;
                      is_new = other;
                      is_reserved = e3;
                      is_recorded = recorded;
                      may = may;
                      is_own = own;
                      is_same = id;
                      same_hash = hash;
                      is_written = written;
                    }
              ]
        ]
      ]
