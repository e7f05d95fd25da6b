-- ===== src/Sse/Display.antt =====
-- Restoration in src/sse.rs changes the display texts of an event, and no other string of it.
use agent_veil.Sse.Event.{
  get_field, set_field, restore_string_field, restore_output_text_part, restore_message_item,
  restore_response_snapshot, restore_event, str_field, part_events, item_events, snapshot_events,
}
use agent_veil.Payload.Target.{texts}
use agent_veil.Payload.Value.{Value, as_str, is_text}
use agent_veil.Prelude.{
  Text, bytes, ◌≡◌, ◌⊎◌, inl, inr, ok, some, Bool-cases, text_eq, ap, ◌∙◌, subst, Option-cases,
  contains, contains→In, text_eq→eq, In, [], ◌∷◌, true,
}
use agent_veil.Sse.Keeps.{
  Places, Keeps, Under, Each, IsRoot, Keeps-self, Keeps-imp, set_field-Keeps, as_str-string,
  string-Keeps, Restores, restore_items-Restores, restore_field-Restores,
}

-- The places of a value whose type is the given one.
abbrev pub Typed : Text → Places → Places
Typed name P v path = (get_field (bytes "type") v ≡ some (Value.string name)) × P v path

-- The text of a part of output text, those of a message, and those of a response.
abbrev pub IsPartText : Places
IsPartText = Typed (bytes "output_text") (Under (bytes "text") IsRoot)

abbrev pub IsItemText : Places
IsItemText = Typed (bytes "message") (Under (bytes "content") (Each IsPartText))

abbrev pub IsSnapshotText : Places
IsSnapshotText = Under (bytes "output") (Each IsItemText)

-- The places of display text in an event of a type.
abbrev pub IsDisplayText : Text → Places
IsDisplayText event_type v path =
    ((event_type ≡ bytes "response.output_text.delta") × Under (bytes "delta") IsRoot v path)
    ⊎ ((event_type ≡ bytes "response.output_text.done") × Under (bytes "text") IsRoot v path)
    ⊎ (In event_type (bytes "response.content_part.added" ∷ bytes "response.content_part.done" ∷ [])
        × Under (bytes "part") IsPartText v path)
    ⊎ (In event_type (bytes "response.output_item.added" ∷ bytes "response.output_item.done" ∷ [])
        × Under (bytes "item") IsItemText v path)
    ⊎ (In event_type (
          bytes "response.created" ∷ bytes "response.in_progress" ∷ bytes "response.completed" ∷ [])
        × Under (bytes "response") IsSnapshotText v path)

is_text-string :
    (k name : Text) (v : Value)
    → is_text (str_field k v) name ≡ true
    → get_field k v ≡ some (Value.string name)
is_text-string k name v h = elim (Option-cases (get_field k v)) [
  | inl missing ↦ absurd (cc (rw (missing, is_text) at h))
  | inr (x, found) ↦ elim (Option-cases (as_str x)) [
    | inl other ↦ absurd (cc (rw (found, other, is_text) at h))
    | inr (text, shape) ↦
        let named : text ≡ name = text_eq→eq text name (rw (found, shape, is_text) at h) in
        found ∙ ap some (as_str-string x text shape ∙ ap Value.string named)
  ]
]

module _ {S : Type 0} (restore : Text → S → Text × S) where
  restore_string_field-Keeps :
      (field : Text) (v v' : Value) (s s' : S)
      → restore_string_field restore v field s ≡ (ok v', s')
      → Keeps (Under field IsRoot) v v'
  unfolding restore_string_field
  restore_string_field-Keeps field v v' s s' h = elim (Option-cases (get_field field v)) [
    | inl missing ↦
        let same : v ≡ v' = cc (rw (missing, restore_string_field) at h) in
        subst (λ w. Keeps (Under field IsRoot) v w) same (Keeps-self (Under field IsRoot) v)
    | inr (current, found) ↦ elim (Option-cases (as_str current)) [
      | inl other ↦ absurd (cc (ap (λ r. r.0) (rw (found, restore_string_field, other) at h)))
      | inr (text, shape) ↦
          let x = Value.string (restore text s).0 in
          let made : set_field field x v ≡ v' = cc (rw (found, restore_string_field, shape) at h) in
          subst (λ w. Keeps (Under field IsRoot) v w) made
            (set_field-Keeps IsRoot field (Value.string text) x v
              (found ∙ ap some (as_str-string current text shape))
              (string-Keeps text (restore text s).0))
    ]
  ]

  part-Restores : Restores IsPartText (restore_output_text_part restore)
  unfolding restore_output_text_part
  part-Restores v v' s s' h =
      elim (Bool-cases (is_text (str_field (bytes "type") v) (bytes "output_text"))) [
        | inl t ↦
            Keeps-imp (Under (bytes "text") IsRoot) IsPartText v v'
              (λ p x. (is_text-string (bytes "type") (bytes "output_text") v t, x))
              (restore_string_field-Keeps (bytes "text") v v' s s'
                (rw (t, restore_output_text_part) at h))
        | inr f ↦
            let same : v ≡ v' = cc (rw (f, restore_output_text_part) at h) in
            subst (λ w. Keeps IsPartText v w) same (Keeps-self IsPartText v)
      ]

  message-Restores : Restores IsItemText (restore_message_item restore)
  unfolding restore_message_item
  message-Restores v v' s s' h =
      elim (Bool-cases (is_text (str_field (bytes "type") v) (bytes "message"))) [
        | inl t ↦
            Keeps-imp (Under (bytes "content") (Each IsPartText)) IsItemText v v'
              (λ p x. (is_text-string (bytes "type") (bytes "message") v t, x))
              (restore_items-Restores IsPartText (restore_output_text_part restore) part-Restores
                (bytes "content") v v' s s' (rw (t, restore_message_item) at h))
        | inr f ↦
            let same : v ≡ v' = cc (rw (f, restore_message_item) at h) in
            subst (λ w. Keeps IsItemText v w) same (Keeps-self IsItemText v)
      ]

  snapshot-Restores : Restores IsSnapshotText (restore_response_snapshot restore)
  unfolding restore_response_snapshot
  snapshot-Restores v v' s s' h =
      restore_items-Restores IsItemText (restore_message_item restore) message-Restores
        (bytes "output") v v' s s' h

  -- A restoration that succeeds keeps every string of the event but the display texts that an event
  -- of its type may hold: the delta of a delta event, the text of a done event, and, behind a part,
  -- an item or a response, the texts of parts of type output_text, where an item is of type message.
  pub restore_event-Keeps :
      (event_type : Text) (event event' : Value) (s s' : S)
      → restore_event restore event_type event s ≡ (ok event', s')
      → Keeps (IsDisplayText event_type) event event'
  unfolding restore_event part_events item_events snapshot_events texts
  restore_event-Keeps event_type v v' s s' h =
      elim (Bool-cases (text_eq event_type (bytes "response.output_text.delta"))) [
        | inl a ↦
            Keeps-imp (Under (bytes "delta") IsRoot) (IsDisplayText event_type) v v'
              (λ p x. inl (text_eq→eq event_type _ a, x))
              (restore_string_field-Keeps (bytes "delta") v v' s s' (rw (a, restore_event) at h))
        | inr a ↦ elim (Bool-cases (text_eq event_type (bytes "response.output_text.done"))) [
          | inl b ↦
              Keeps-imp (Under (bytes "text") IsRoot) (IsDisplayText event_type) v v'
                (λ p x. inr (inl (text_eq→eq event_type _ b, x)))
                (restore_string_field-Keeps (bytes "text") v v' s s'
                  (rw (a, b, restore_event) at h))
          | inr b ↦ elim (Bool-cases (contains part_events event_type)) [
            | inl c ↦
                Keeps-imp (Under (bytes "part") IsPartText) (IsDisplayText event_type) v v'
                  (λ p x. inr (inr (inl (contains→In part_events event_type c, x))))
                  (restore_field-Restores IsPartText (restore_output_text_part restore)
                    part-Restores (bytes "part") v v' s s' (rw (a, b, c, restore_event) at h))
            | inr c ↦ elim (Bool-cases (contains item_events event_type)) [
              | inl d ↦
                  Keeps-imp (Under (bytes "item") IsItemText) (IsDisplayText event_type) v v'
                    (λ p x. inr (inr (inr (inl (contains→In item_events event_type d, x)))))
                    (restore_field-Restores IsItemText (restore_message_item restore)
                      message-Restores (bytes "item") v v' s s'
                      (rw (a, b, c, d, restore_event) at h))
              | inr d ↦ elim (Bool-cases (contains snapshot_events event_type)) [
                | inl e ↦
                    Keeps-imp (Under (bytes "response") IsSnapshotText) (IsDisplayText event_type) v
                      v'
                      (λ p x. inr (inr (inr (inr (contains→In snapshot_events event_type e, x)))))
                      (restore_field-Restores IsSnapshotText (restore_response_snapshot restore)
                        snapshot-Restores (bytes "response") v v' s s'
                        (rw (a, b, c, d, e, restore_event) at h))
                | inr e ↦
                    let same : v ≡ v' = cc (rw (a, b, c, d, e, restore_event) at h) in
                    subst (λ w. Keeps (IsDisplayText event_type) v w) same
                      (Keeps-self (IsDisplayText event_type) v)
              ]
            ]
          ]
        ]
      ]
