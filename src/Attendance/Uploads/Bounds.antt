-- ===== src/Attendance/Uploads/Bounds.antt =====
-- convex/attendanceValidation.ts: an event that is accepted is within the bounds of its fields.
use fw_gatekeeper.Prelude.{
  ℕ, ◌≤◌, ◌<◌, Bool, true, false, ◌&&◌, Option, none, some, [], ◌∷◌, ◌≡◌, subst, inl, inr, arith,
}
use fw_gatekeeper.Prelude.Tests.{Bool-cases, ltb, leb, if◌then◌else◌}
use fw_gatekeeper.Prelude.Lists.{length}
use fw_gatekeeper.Prelude.Text.{Text, text_eq, trim}
use fw_gatekeeper.Prelude.Number.{JsNumber, nan, infinite, finite, unit}
use fw_gatekeeper.Prelude.Result.{ok, Result-cases}
use fw_gatekeeper.Attendance.Ingest.{AttendanceEvent}
use fw_gatekeeper.Attendance.Validation.{
  Value, undefined, null, string, number, boolean, compound, RawEvent, not_blank, tolerance,
  one_and_tolerance, text_field, required_text, event_type_of, clamp, confidence_field,
  liveness_field, or_id, validate_event,
}

-- A text that is there is not empty, and has at most `max` units.
abbrev pub Bounded : ℕ → Option Text → Type 0
Bounded max none = Unit
Bounded max (some t) = (0 < length t) × (length t ≤ max)

-- A number from 0 to 1.
abbrev pub Fraction : Option JsNumber → Type 0
Fraction none = Unit
Fraction (some nan) = ⊥
Fraction (some (infinite s)) = ⊥
Fraction (some (finite true n)) = ⊥
Fraction (some (finite false n)) = n ≤ unit

pub record EventIsValid (is_valid_timestamp : Text → Bool) (event : AttendanceEvent) : Type 0 where
  pub worker_id : Bounded 256 (some event.worker_id)
  pub timestamp : Bounded 64 (some event.timestamp)
  pub timestamp_valid : is_valid_timestamp event.timestamp ≡ true
  pub kiosk_id : Bounded 128 event.kiosk_id
  pub idempotency_key : Bounded 256 event.idempotency_key
  pub worker_name : Bounded 200 event.worker_name
  pub confidence : Fraction event.confidence
  pub note : Bounded 500 event.note

not_blank_lem : (u t : Text) → not_blank u ≡ some t → (u ≡ t) × (0 < length t)
not_blank_lem [] t h = absurd (ground arith)
not_blank_lem (c ∷ u) t h =
    let is : c ∷ u ≡ t = ground arith in (is, subst (λ v. 0 < length v) is (omega arith))

text_field-Bounded :
    (v : Value) (required : Bool) (max : ℕ) (t : Option Text)
    → text_field v required max ≡ ok t
    → Bounded max t
unfolding text_field
text_field-Bounded v required max none h = tt
text_field-Bounded undefined required max (some t) h = absurd (ground arith)
text_field-Bounded null required max (some t) h = absurd (ground arith)
text_field-Bounded (string s) required max (some t) h =
    elim (Bool-cases (required && leb (length (trim s)) 0)) [
      | inl blank ↦ absurd (ground arith)
      | inr given ↦ elim (Bool-cases (ltb max (length (trim s)))) [
        | inl long ↦ absurd (ground arith)
        | inr short ↦
            let (is, some_) = not_blank_lem (trim s) t (ground arith) in
            (some_, subst (λ u. length u ≤ max) is (ground arith))
      ]
    ]
text_field-Bounded (number x) required max (some t) h = absurd (ground arith)
text_field-Bounded (boolean b) required max (some t) h = absurd (ground arith)
text_field-Bounded compound required max (some t) h = absurd (ground arith)

required_text-Bounded :
    (v : Value) (max : ℕ) (t : Text) → required_text v max ≡ ok t → Bounded max (some t)
required_text-Bounded v max t h = elim (Result-cases (text_field v true max)) [
  | inr (bad, e) ↦ absurd (ground arith)
  | inl (o, e) ↦
      let is : o ≡ some t = ground arith in
      subst (Bounded max) is (text_field-Bounded v true max o e)
]

confidence_field-Fraction :
    (v : Value) (c : Option JsNumber) → confidence_field v ≡ ok c → Fraction c
unfolding confidence_field clamp
confidence_field-Fraction undefined c h = let is : none ≡ c = ground arith in subst Fraction is tt
confidence_field-Fraction (number (finite true n)) c h = elim (Bool-cases (ltb tolerance n)) [
  | inl off ↦ absurd (ground arith)
  | inr near ↦ let is : some (finite false 0) ≡ c = ground arith in subst Fraction is (omega arith)
]
confidence_field-Fraction (number (finite false n)) c h =
    elim (Bool-cases (ltb one_and_tolerance n)) [
      | inl off ↦ absurd (ground arith)
      | inr near ↦
          let is : some (finite false (if ltb unit n then unit else n)) ≡ c = ground arith in
          subst Fraction is (ground arith)
    ]
confidence_field-Fraction (number nan) c h = absurd (ground arith)
confidence_field-Fraction (number (infinite s)) c h = absurd (ground arith)
confidence_field-Fraction null c h = absurd (ground arith)
confidence_field-Fraction (string t) c h = absurd (ground arith)
confidence_field-Fraction (boolean b) c h = absurd (ground arith)
confidence_field-Fraction compound c h = absurd (ground arith)

module _ (is_valid_timestamp : Text → Bool) where
  -- What is accepted of an uploaded event is within bounds: the texts that are there are not empty
  -- and no longer than their field allows, the timestamp is a valid one, and the confidence is a
  -- number from 0 to 1.
  pub validate_event-IsValid :
      (raw : Option RawEvent) (event : AttendanceEvent)
      → validate_event is_valid_timestamp raw ≡ ok event
      → EventIsValid is_valid_timestamp event
  unfolding validate_event
  validate_event-IsValid none event h = absurd (ground arith)
  validate_event-IsValid (some r) event h = elim (Result-cases (required_text r.worker_id 256)) [
    | inr (bad, e) ↦ absurd (ground arith)
    | inl (worker_id, e1) ↦ elim (Result-cases (required_text r.event_type 256)) [
      | inr (bad, e) ↦ absurd (ground arith)
      | inl (type_text, e2) ↦ elim (Result-cases (event_type_of type_text)) [
        | inr (bad, e) ↦ absurd (ground arith)
        | inl (event_type, e3) ↦ elim (Result-cases (required_text r.timestamp 64)) [
          | inr (bad, e) ↦ absurd (ground arith)
          | inl (timestamp, e4) ↦ elim (Bool-cases (is_valid_timestamp timestamp)) [
            | inr bad ↦ absurd (ground arith)
            | inl good ↦ elim (Result-cases (confidence_field r.confidence)) [
              | inr (bad, e) ↦ absurd (ground arith)
              | inl (confidence, e5) ↦ elim (Result-cases (liveness_field r.liveness_confirmed)) [
                | inr (bad, e) ↦ absurd (ground arith)
                | inl (liveness, e6) ↦ elim (Result-cases (text_field r.kiosk_id false 128)) [
                  | inr (bad, e) ↦ absurd (ground arith)
                  | inl (kiosk_id, e7) ↦
                      elim (Result-cases (text_field (or_id r.idempotency_key r.id) false 256)) [
                        | inr (bad, e) ↦ absurd (ground arith)
                        | inl (key, e8) ↦ elim (Result-cases (text_field r.worker_name false 200)) [
                          | inr (bad, e) ↦ absurd (ground arith)
                          | inl (worker_name, e9) ↦
                              elim (Result-cases (text_field r.note false 500)) [
                                | inr (bad, e) ↦ absurd (ground arith)
                                | inl (note, e10) ↦
                                    let fields : record {
                                      worker_id = worker_id;
                                      event_type = event_type;
                                      timestamp = timestamp;
                                      kiosk_id = kiosk_id;
                                      idempotency_key = key;
                                      worker_name = worker_name;
                                      confidence = confidence;
                                      liveness_confirmed = liveness;
                                      note = note;
                                    }
                                        ≡ event =
                                      ground arith in
                                    subst (EventIsValid is_valid_timestamp) fields (record {
                                      worker_id =
                                          required_text-Bounded r.worker_id 256 worker_id e1;
                                      timestamp = required_text-Bounded r.timestamp 64 timestamp e4;
                                      timestamp_valid = good;
                                      kiosk_id =
                                          text_field-Bounded r.kiosk_id false 128 kiosk_id e7;
                                      idempotency_key =
                                          text_field-Bounded (or_id r.idempotency_key r.id) false
                                            256 key e8;
                                      worker_name =
                                          text_field-Bounded r.worker_name false 200 worker_name e9;
                                      confidence =
                                          confidence_field-Fraction r.confidence confidence e5;
                                      note = text_field-Bounded r.note false 500 note e10;
                                    })
                              ]
                        ]
                      ]
                ]
              ]
            ]
          ]
        ]
      ]
    ]
  ]
