-- ===== src/FlowAudit/Rejections.antt =====
-- What the telemetry of the rejection packets shows that has no error.
use mathlib.Core.List.{Memᴰ}
use canon_systems.Base.{
  String, ◌≡◌, ◌≢◌, ◌↔◌, refl, sym, ap, ◌∙◌, inl, inr, Bool, true, false, not, ◌&&◌, ◌||◌, Option,
  none, some, List, [], ◌∷◌, str_eq, non_empty, subst, Option-cases,
}
use canon_systems.Base.Text.{strip}
use canon_systems.Base.Json.{Json, Members, object, has, contains_text}
use canon_systems.FlowAudit.{
  with_object, File, absent, unreadable, content, Error, unless, Packet, stripped_field,
  telemetry_payload, packet_errors, with_status, missing_json, invalid_json, payload_not_object,
  collect_dor_telemetry_errors, handoff_mismatch, stage_missing, task_mismatch, status_exit_marker,
  no_telemetry,
}
use canon_systems.FlowAudit.Errors.{
  no_errors, unless-none, iff_trans, each_error-none, str_eq_iff, with_object-none,
}

module _ (repr : Json → String) where
  abbrev TelemetryOf : String → String → String → Members → Type 0
  TelemetryOf handoff_id task_id status ms =
      (stripped_field repr ms "handoff_id" ≡ strip handoff_id)
      × ((non_empty (stripped_field repr ms "stage") ≡ true)
          × ((stripped_field repr ms "task_id" ≡ strip task_id)
              × (contains_text status "exit_code:" ≡ true)))

  -- A rejection has its status file, and its telemetry names the handoff, the task and a stage.
  pub IsReported : String → String → Packet → Type 0
  IsReported handoff_id task_id p =
      (status : String) × (p.status ≡ some status)
      × ((ms : Members) × (p.telemetry ≡ content (object ms))
          × TelemetryOf handoff_id task_id status ms)

  task_test :
      (ms : Members) (task_id stem : String)
      → (unless
            (str_eq (stripped_field repr ms "task_id") (strip task_id)
              || (not true && not (has ms "task_id")))
            (task_mismatch stem)
          ≡ [])
        ↔ (stripped_field repr ms "task_id" ≡ strip task_id)
  task_test ms task_id stem =
      iff_trans
        (unless-none (str_eq (stripped_field repr ms "task_id") (strip task_id) || false)
          (task_mismatch stem))
        (or_false (str_eq (stripped_field repr ms "task_id") (strip task_id))
          (str_eq_iff (stripped_field repr ms "task_id") (strip task_id)))
    where
      or_false : (b : Bool) {P : Type 0} → ((b ≡ true) ↔ P) → (b || false ≡ true) ↔ P
      or_false true p = p
      or_false false p = p

  telemetry-TelemetryOf :
      (handoff_id task_id stem status : String) (ms : Members)
      → (telemetry_payload repr handoff_id task_id true stem status ms ≡ [])
        ↔ TelemetryOf handoff_id task_id status ms
  unfolding telemetry_payload
  telemetry-TelemetryOf handoff_id task_id stem status ms =
      no_errors
        (iff_trans
          (unless-none (str_eq (stripped_field repr ms "handoff_id") (strip handoff_id))
            (handoff_mismatch stem))
          (str_eq_iff (stripped_field repr ms "handoff_id") (strip handoff_id)))
        (no_errors (unless-none (non_empty (stripped_field repr ms "stage")) (stage_missing stem)) (
          no_errors (task_test ms task_id stem)
            (unless-none (contains_text status "exit_code:") (status_exit_marker stem))))

  with_status-some :
      (handoff_id task_id stem status : String) (f : File)
      → with_status repr handoff_id task_id true stem f (some status)
        ≡ with_object
            (missing_json stem)
            (invalid_json stem)
            (payload_not_object stem)
            (telemetry_payload repr handoff_id task_id true stem status)
            f
  unfolding with_status with_object
  with_status-some handoff_id task_id stem status absent = refl
  with_status-some handoff_id task_id stem status unreadable = refl
  with_status-some handoff_id task_id stem status (content v) = refl

  with_status-none :
      (handoff_id task_id stem : String) (f : File)
      → with_status repr handoff_id task_id true stem f none ≢ []
  unfolding with_status
  with_status-none handoff_id task_id stem absent h = cc
  with_status-none handoff_id task_id stem unreadable h = cc
  with_status-none handoff_id task_id stem (content v) h = cc

  packet-IsReported :
      (handoff_id task_id : String) (p : Packet)
      → (packet_errors repr handoff_id task_id true p ≡ []) ↔ IsReported handoff_id task_id p
  unfolding packet_errors IsReported
  packet-IsReported handoff_id task_id p = (sound, complete)
    where
      told :
          (status : String)
          → (with_status repr handoff_id task_id true p.stem p.telemetry (some status) ≡ []) ↔ (
              (ms : Members) × (p.telemetry ≡ content (object ms))
              × TelemetryOf handoff_id task_id status ms)
      told status =
          subst
            (λ (l : List Error). (l ≡ []) ↔ (
              (ms : Members) × (p.telemetry ≡ content (object ms))
              × TelemetryOf handoff_id task_id status ms))
            (sym (with_status-some handoff_id task_id p.stem status p.telemetry))
            (with_object-none (missing_json p.stem) (invalid_json p.stem)
              (payload_not_object p.stem)
              (telemetry_payload repr handoff_id task_id true p.stem status)
              (telemetry-TelemetryOf handoff_id task_id p.stem status) p.telemetry)

      at_status :
          (s : Option String)
          → p.status ≡ s
          → packet_errors repr handoff_id task_id true p
            ≡ with_status repr handoff_id task_id true p.stem p.telemetry s
      at_status s e = ap (with_status repr handoff_id task_id true p.stem p.telemetry) e

      sound : packet_errors repr handoff_id task_id true p ≡ [] → IsReported handoff_id task_id p
      sound h = elim (Option-cases p.status) [
        | inl e ↦
            absurd
              (with_status-none handoff_id task_id p.stem p.telemetry (sym (at_status none e) ∙ h))
        | inr (status, e) ↦ (status, e, (told status).0 (sym (at_status (some status) e) ∙ h))
      ]

      complete : IsReported handoff_id task_id p → packet_errors repr handoff_id task_id true p ≡ []
      complete (status, e, t) = at_status (some status) e ∙ (told status).1 t

  pub Reported : String → String → Bool → List Packet → Type 0
  Reported handoff_id task_id any_telemetry packets =
      (p : Packet) → Memᴰ p packets → (any_telemetry ≡ true) × IsReported handoff_id task_id p

  pub packets-Reported :
      (handoff_id task_id : String) (any_telemetry : Bool) (packets : List Packet)
      → (collect_dor_telemetry_errors repr handoff_id task_id true true any_telemetry packets ≡ [])
        ↔ Reported handoff_id task_id any_telemetry packets
  unfolding collect_dor_telemetry_errors Reported
  packets-Reported handoff_id task_id any_telemetry [] = (λ h p m. elim m [ ], λ h. refl)
  packets-Reported handoff_id task_id any_telemetry (p ∷ ps) =
      iff_trans
        (no_errors (unless-none (false || any_telemetry) no_telemetry)
          (each_error-none (packet_errors repr handoff_id task_id true) (p ∷ ps)))
        (
          λ h q m. (h.0, (packet-IsReported handoff_id task_id q).0 (h.1 q m)),
          λ h. (
            (h p (Memᴰ.head refl)).0,
            λ q m. (packet-IsReported handoff_id task_id q).1 (h q m).1,
          ),
        )
