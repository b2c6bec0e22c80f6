-- ===== src/Gateway/Loss.antt =====
-- Nothing that the gateway accepted is lost, at any point of any interleaving.
use open_machine_protocol.Prelude.{ℕ, ◌≤◌, String, inl, inr, ◌⊎◌, List, Member, All, All-of_Member}
use open_machine_protocol.Envelope.{Primitives}
use open_machine_protocol.Store.{Store, BufferRow, cursor}
use open_machine_protocol.Engine.{Engine, process}
use open_machine_protocol.Engine.Totality.{process-Processed}
use open_machine_protocol.Gateway.{
  idle, System, set_phase, Step, emit, fetch, publish, acknowledge, fail, restart, retain, Reach,
  begin, step,
}
use open_machine_protocol.Gateway.Ready.{set_phase_all, Ready}
use open_machine_protocol.Gateway.Sound.{
  IsSound, start-IsSound, fetch-IsSound, idle-IsSound, publish-IsSound, acknowledge-IsSound,
  retain-IsSound, emitted-IsSound,
}

module _ (p : Primitives) (engine : Engine) (db_bytes : Store → ℕ) (exporters : List String) where
  Step-IsSound :
      {σ τ : System}
      → IsSound p engine db_bytes exporters σ
      → Step p engine db_bytes exporters σ τ
      → IsSound p engine db_bytes exporters τ
  Step-IsSound {σ} v (emit m body now t) =
      emitted-IsSound p engine db_bytes exporters σ m t (process p engine m body now t σ.store)
        (process-Processed p engine m t σ.store body now v.valid) v
  Step-IsSound {σ} v (fetch e batch m) = fetch-IsSound p engine db_bytes exporters σ e batch m v
  Step-IsSound {σ} v (publish e r rows h) =
      publish-IsSound p engine db_bytes exporters σ e r rows h v
  Step-IsSound {σ} v (acknowledge e r rows h) =
      acknowledge-IsSound p engine db_bytes exporters σ e r rows h v
  Step-IsSound {σ} v (fail e) =
      idle-IsSound p engine db_bytes exporters σ (set_phase σ.phase e idle) v
        (set_phase_all (Ready σ.delivered σ.accepted) σ.phase e idle tt v.ready)
  Step-IsSound {σ} v restart = idle-IsSound p engine db_bytes exporters σ (λ _. idle) v (λ x. tt)
  Step-IsSound {σ} v (retain retention now max_bytes sm s' h) =
      retain-IsSound p engine db_bytes exporters σ retention now max_bytes sm s' h v

  pub Reach-IsSound :
      {σ : System} → Reach p engine db_bytes exporters σ → IsSound p engine db_bytes exporters σ
  Reach-IsSound begin = start-IsSound p engine db_bytes exporters
  Reach-IsSound (step r st) = Step-IsSound (Reach-IsSound r) st

  -- Whatever the steps, failures and restarts among them, a row that was ever accepted is in the
  -- buffer, or every configured exporter has published it.
  pub accepted_never_lost :
      {σ : System}
      → Reach p engine db_bytes exporters σ
      → (r : BufferRow) → Member r σ.accepted
      → Member r σ.store.buffer ⊎ All (λ e. Member (e, r.rowid_pk) σ.delivered) exporters
  accepted_never_lost {σ} reached r m = elim ((Reach-IsSound reached).held r m) [
    | inl still ↦ inl still
    | inr all ↦ inr (All-of_Member (λ e. Member (e, r.rowid_pk) σ.delivered) exporters all)
  ]

  -- An exporter's cursor never passes a row that it has not published.
  pub cursor_after_publish :
      {σ : System}
      → Reach p engine db_bytes exporters σ
      → (e : String) (r : BufferRow) → Member r σ.accepted
      → r.rowid_pk ≤ cursor σ.store e
      → Member (e, r.rowid_pk) σ.delivered
  cursor_after_publish reached = (Reach-IsSound reached).before
