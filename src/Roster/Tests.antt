-- ===== src/Roster/Tests.antt =====
-- Runs of the roster protocol, and its theorems at a kiosk with one worker.
use fw_gatekeeper.Prelude.{ℕ, true, false, Option, none, some, [], ◌∷◌, ◌≡◌, ◌⊎◌, refl, arith}
use fw_gatekeeper.Prelude.Lists.{find, All}
use fw_gatekeeper.Prelude.Text.{text, text_beq, text_ltb}
use fw_gatekeeper.Prelude.Number.{max_safe_integer}
use fw_gatekeeper.Prelude.Result.{ok, err}
use fw_gatekeeper.Prelude.Table.{get_row, patch_row, delete_row}
use fw_gatekeeper.Schema.{Kiosk, kiosk_row, Worker, RosterCounter, Db}
use fw_gatekeeper.Samples.{platform, staffed, ann, gate}
use fw_gatekeeper.Roster.Sequence.{
  last_purge, advance, take_sequence, write_worker, insert_worker, exhausted,
}
use fw_gatekeeper.Roster.Cursor.{parse_roster_cursor, cursor_of, parse-cursor_of}
use fw_gatekeeper.Roster.Receipts.{
  issue_receipt, acknowledge_receipt, new_receipt, pending_receipt, purge_pending,
}
use fw_gatekeeper.Roster.Sync.{updated_rows}
use fw_gatekeeper.Roster.Invariant.{RosterIsValid}
use fw_gatekeeper.Roster.Reach.{
  wrote, receipt_issued, acknowledged, Reach, Reach-IsValid, here, next,
}
use fw_gatekeeper.Roster.Purge.{Quiet, quiet, after, purge_stays_pending}
use fw_gatekeeper.Roster.Delta.{Among, updated_rows_miss_nothing}
use fw_gatekeeper.Roster.Certify.{acknowledge_twice, acknowledgement_certifies}

roster : Unit {0}
unfolding get_row patch_row delete_row find text_beq text_ltb advance take_sequence write_worker
    insert_worker issue_receipt acknowledge_receipt purge_pending
roster = tt

abbrev site : Db
site = record staffed {
  kiosks = gate ∷ [];
  roster_counter = some (record { value = some 1; last_purge_sequence = none });
}

abbrev deactivate : Worker → Worker
deactivate w = record w { active = false }

abbrev counter_at : ℕ → Option ℕ → Option RosterCounter
counter_at n purge = some (record { value = some n; last_purge_sequence = purge })

-- A purge of Ann's biometrics takes sequence 2.
abbrev purged : Db
purged = record site {
  workers = record ann { active = false; roster_sequence = some 2 } ∷ [];
  roster_counter = counter_at 2 (some 2);
}

purge_runs :
    (write_worker deactivate 97 true site ≡ ok purged)
    × (write_worker deactivate 97 true
          (record site { roster_counter = counter_at max_safe_integer none })
        ≡ err exhausted)
unfolding roster
purge_runs = (refl, refl)

-- A receipt for the state before the purge, and its acknowledgement after.
abbrev waiting : Db
waiting = (issue_receipt 50 (text "2026-01-02") site).1

abbrev waiting_purged : Db
waiting_purged = record purged {
  next_id = 99;
  roster_receipts = new_receipt 50 (text "2026-01-02") site ∷ [];
}

abbrev confirmed : Db
confirmed = (acknowledge_receipt 50 98 (text "2026-01-03") waiting_purged).1

site-IsValid : RosterIsValid site
site-IsValid = record {
  workers = (omega arith, tt);
  kiosks = ((tt, tt), tt);
  receipts = tt;
  purge = tt;
}

parse-cursor_of_example : parse_roster_cursor (some (cursor_of 42)) ≡ some 42
parse-cursor_of_example = parse-cursor_of 42 (omega arith)

waiting_reached : Reach platform site waiting
waiting_reached = next here (receipt_issued 50 (text "2026-01-02") refl)

Reach-IsValid_example : RosterIsValid waiting
Reach-IsValid_example = Reach-IsValid platform waiting_reached site-IsValid

waiting_lem :
    (waiting ≡ record site {
      next_id = 99;
      roster_receipts = new_receipt 50 (text "2026-01-02") site ∷ [];
    })
    × (write_worker deactivate 97 true (record site {
      next_id = 99;
      roster_receipts = new_receipt 50 (text "2026-01-02") site ∷ [];
    })
        ≡ ok waiting_purged)
unfolding roster
waiting_lem = (refl, refl)

waiting-IsValid :
    RosterIsValid
      (record site { next_id = 99; roster_receipts = new_receipt 50 (text "2026-01-02") site ∷ [] })
waiting-IsValid = record {
  workers = (omega arith, tt);
  kiosks = ((tt, tt), tt);
  receipts = (omega arith, tt);
  purge = tt;
}

confirmed_quietly : Quiet platform 50 waiting_purged confirmed
confirmed_quietly = after quiet (acknowledged 50 98 (text "2026-01-03") refl) tt

-- The kiosk has confirmed its receipt, of the state before the purge.
purge_stays_pending_example :
    All (λ (x : Kiosk). x.id ≡ 50 → purge_pending (last_purge confirmed) x ≡ true) confirmed.kiosks
purge_stays_pending_example =
    purge_stays_pending platform deactivate 97 50 _ waiting_purged confirmed waiting-IsValid
      waiting_lem.1 confirmed_quietly

updated_rows_miss_nothing_example :
    All (λ w. Among w (updated_rows 1 purged.workers) ⊎ Among w site.workers) purged.workers
updated_rows_miss_nothing_example =
    updated_rows_miss_nothing platform site purged
      (next here (wrote deactivate 97 true purge_runs.0))

taken : (acknowledge_receipt 50 98 (text "2026-01-03") waiting_purged).0.acknowledged ≡ true
unfolding roster
taken = refl

acknowledge_twice_example :
    acknowledge_receipt 50 98 (text "2026-01-04") confirmed
    ≡ acknowledge_receipt 50 98 (text "2026-01-03") waiting_purged
acknowledge_twice_example =
    acknowledge_twice 50 98 (text "2026-01-03") (text "2026-01-04") waiting_purged taken

purged-IsValid : RosterIsValid purged
purged-IsValid = record {
  workers = (omega arith, tt);
  kiosks = ((tt, tt), tt);
  receipts = tt;
  purge = omega arith;
}

gate_found : (get_row 50 purged.kiosks ≡ some gate) × (pending_receipt 50 purged ≡ none)
unfolding roster
gate_found = (refl, refl)

acknowledgement_certifies_example :
    (x : Kiosk) × (get_row 50
        (acknowledge_receipt 50 98 (text "t2") (issue_receipt 50 (text "t1") purged).1).1.kiosks
      ≡ some x)
    × (x.roster_applied_sequence ≡ some 2)
    × (purge_pending (some 2) x ≡ false)
acknowledgement_certifies_example =
    acknowledgement_certifies 50 (text "t1") (text "t2") purged gate purged-IsValid
      (record { below = tt; distinct = tt }) gate_found.0 refl gate_found.1 (λ e. cc)
