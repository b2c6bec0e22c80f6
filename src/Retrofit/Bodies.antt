-- ===== src/Retrofit/Bodies.antt =====
-- What a retrofit node makes the gateway emit is always canonicalizable.
use open_machine_protocol.Prelude.{
  ℕ, ◌≡◌, refl, String, Option, none, some, All, Bool-cases, Option-cases, inl, inr,
}
use open_machine_protocol.Prelude.Int.{ℤ}
use open_machine_protocol.Json.{Value, Fields, get}
use open_machine_protocol.Envelope.{
  Envelope, Primitives, ok, check_numbers, canonicalize, checksum, make_envelope,
}
use open_machine_protocol.Engine.{Body}
use open_machine_protocol.Adapter.{Base, mark_data}
use open_machine_protocol.Retrofit.{
  Clock, Handled, dropped_body, load_body, energy_body, event_of, int_of, int_at, truthy, is_text,
  on_hello, on_energy, on_type, handle,
}

module _ (p : Primitives) (gateway_id machine_id : String) (seq : ℕ) (ts : String) where
  -- `make_envelope` makes an envelope of the body.
  abbrev pub MakesEnvelope : Body → Type 0
  MakesEnvelope b =
      (e : Envelope) × (make_envelope p b.schema b.body b.profile gateway_id machine_id seq ts
        ≡ ok e)

  dropped_body-MakesEnvelope : (n : ℤ) → MakesEnvelope (dropped_body n)
  unfolding make_envelope checksum canonicalize check_numbers
  dropped_body-MakesEnvelope n = (_, refl)

  load_body-MakesEnvelope : (event : String) → MakesEnvelope (load_body event)
  unfolding make_envelope checksum canonicalize check_numbers
  load_body-MakesEnvelope event = (_, refl)

  energy_body-MakesEnvelope :
      (wh : ℤ) (start end_ts : String) → MakesEnvelope (energy_body wh start end_ts)
  unfolding make_envelope checksum canonicalize check_numbers
  energy_body-MakesEnvelope wh start end_ts = (_, refl)

  abbrev AllMake : Handled → Type 0
  AllMake h = All MakesEnvelope h.emits

  module _ (parse_int : String → Option ℤ) (clock : Clock) where
    on_hello-AllMake : (msg : Fields) (b : Base) → AllMake (on_hello parse_int clock msg b)
    unfolding on_hello
    on_hello-AllMake msg b = elim (Option-cases (get "dropped_while_offline" msg)) [
      | inl none_dropped ↦ rw (none_dropped, on_hello) tt
      | inr (v, e) ↦ elim (Bool-cases (truthy v)) [
        | inr zero_dropped ↦ rw (e, zero_dropped, on_hello) tt
        | inl some_dropped ↦ elim (Option-cases (int_of parse_int v)) [
          | inl bad ↦ rw (e, some_dropped, bad, on_hello) tt
          | inr (n, good) ↦ rw (e, some_dropped, good, on_hello) (dropped_body-MakesEnvelope n, tt)
        ]
      ]
    ]

    on_energy-AllMake : (msg : Fields) (b : Base) → AllMake (on_energy parse_int clock msg b)
    unfolding on_energy
    on_energy-AllMake msg b = elim (Option-cases (int_at parse_int clock "interval_s" msg)) [
      | inl bad ↦ rw (bad, on_energy) tt
      | inr (seconds, e) ↦ elim (Option-cases (clock.before seconds)) [
        | inl early ↦ rw (e, early, on_energy) tt
        | inr (start, f) ↦ elim (Option-cases (int_at parse_int clock "wh" msg)) [
          | inl bad ↦ rw (e, f, bad, on_energy) tt
          | inr (wh, g) ↦ rw (e, f, g, on_energy) (energy_body-MakesEnvelope wh start clock.now, tt)
        ]
      ]
    ]

    on_type-AllMake :
        (unknown : String) (msg : Fields) (mtype : Value) (b : Base)
        → AllMake (on_type parse_int clock unknown msg mtype b)
    unfolding on_type
    on_type-AllMake unknown msg mtype b = elim (Bool-cases (is_text "hello" mtype)) [
      | inl hello ↦ rw (hello, on_type) (on_hello-AllMake msg b)
      | inr not_hello ↦ elim (Option-cases (event_of mtype msg)) [
        | inr (event, e) ↦ rw (not_hello, e, on_type) (load_body-MakesEnvelope event, tt)
        | inl no_event ↦ elim (Bool-cases (is_text "energy" mtype)) [
          | inl energy ↦ rw (not_hello, no_event, energy, on_type) (on_energy-AllMake msg b)
          | inr other ↦ rw (not_hello, no_event, other, on_type) tt
        ]
      ]
    ]

    -- Whatever a node sends, `make_envelope` makes an envelope of each body that the adapter emits for it:
    -- its schema is a core one and it holds no number that the checksum refuses.
    pub handle-AllMake :
        (bad unknown : String) (message : Option Value) (b : Base)
        → All MakesEnvelope (handle parse_int clock bad unknown message b).emits
    unfolding handle
    handle-AllMake bad unknown none b = tt
    handle-AllMake bad unknown (some (Value.dict msg)) b = elim (Option-cases (get "type" msg)) [
      | inl gone ↦ rw (gone, handle) tt
      | inr (mtype, e) ↦ rw (e, handle) (on_type-AllMake unknown msg mtype (mark_data clock.now b))
    ]
    handle-AllMake bad unknown (some Value.null) b = tt
    handle-AllMake bad unknown (some (Value.boolean v)) b = tt
    handle-AllMake bad unknown (some (Value.int n)) b = tt
    handle-AllMake bad unknown (some (Value.float f)) b = tt
    handle-AllMake bad unknown (some (Value.text s)) b = tt
    handle-AllMake bad unknown (some (Value.list vs)) b = tt
