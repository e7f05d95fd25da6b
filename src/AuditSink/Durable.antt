-- ===== src/AuditSink/Durable.antt =====
-- When `write` of src/audit_sink.rs reports success.
use agent_veil.Audit.{AuditEvent}
use agent_veil.AuditSink.Private.{failing-Yields, refuse-Yields}
use agent_veil.AuditSink.{AuditSinkError, Os, write, required, refuse, failing}
use agent_veil.Prelude.{
  Text, Bool, false, Option, none, some, ◌≡◌, ◌↔◌, refl, ok, Yields, Yields-bind, Yields-ok,
  Yields-err, Yields-imp, subst, sym, ◌∙◌,
}

required-Yields :
    {S A : Type 0} (e : AuditSinkError) (o : Option A) (s : S)
    → Yields (λ a s'. (o ≡ some a) × (s ≡ s')) (required e o s)
unfolding required
required-Yields e none s = Yields-err e s
required-Yields e (some a) s = Yields-ok a s (refl, refl)

module _ {P F S : Type 0} (os : Os P F S) (to_json_line : AuditEvent → Option Text) (file : F) where
  -- The lock was held, the event was serialized, and its line was written, flushed and synced, one
  -- after the other.
  pub record IsDurable (is_poisoned : Bool) (event : AuditEvent) (s last : S) : Type 0 where
    pub line : Text
    pub written : S
    pub flushed : S
    pub held : is_poisoned ≡ false
    pub serialized : to_json_line event ≡ some line
    pub write_call : os.write_all file line s ≡ (ok tt, written)
    pub flush_call : os.flush file written ≡ (ok tt, flushed)
    pub sync_call : os.sync_data file flushed ≡ (ok tt, last)

  write-IsDurable :
      (is_poisoned : Bool) (event : AuditEvent) (s : S)
      → Yields
          (λ u last. IsDurable is_poisoned event s last)
          (write os to_json_line file is_poisoned event s)
  unfolding write
  write-IsDurable is_poisoned event s =
      Yields-bind _ _ (required-Yields _ (to_json_line event) s) λ line s₁ made.
        Yields-bind _ _ (refuse-Yields is_poisoned _ s₁) λ u s₂ held.
          Yields-bind _ _ (failing-Yields _ (os.write_all file line s₂)) λ v s₃ written.
            Yields-bind _ _ (failing-Yields _ (os.flush file s₃)) λ w s₄ flushed.
              Yields-imp _ (failing-Yields _ (os.sync_data file s₄)) λ x last synced. record {
                line = line;
                written = s₃;
                flushed = s₄;
                held = held.0;
                serialized = made.0;
                write_call =
                    subst (λ t. os.write_all file line t ≡ (ok tt, s₃)) (sym (made.1 ∙ held.1))
                      written;
                flush_call = flushed;
                sync_call = synced;
              }

  IsDurable-write :
      (is_poisoned : Bool) (event : AuditEvent) (s last : S)
      → IsDurable is_poisoned event s last
      → write os to_json_line file is_poisoned event s ≡ (ok tt, last)
  unfolding write required refuse failing
  IsDurable-write is_poisoned event s last h =
      rw (h.serialized, h.held, h.write_call, h.flush_call, h.sync_call) refl

  -- A write succeeds exactly when the lock is held, the event is serialized, and its line is
  -- written, flushed and synced, in this order and each without an error; any other run is an error.
  pub write_iff :
      (is_poisoned : Bool) (event : AuditEvent) (s last : S)
      → (write os to_json_line file is_poisoned event s ≡ (ok tt, last))
        ↔ IsDurable is_poisoned event s last
  write_iff is_poisoned event s last =
      ((write-IsDurable is_poisoned event s).at tt last, IsDurable-write is_poisoned event s last)
