-- ===== src/Demo/Places.antt =====
-- What `collect_tokens_with_prefix` of src/demo.rs makes of the tokens that it reads in a text.
use agent_veil.Demo.Tokens.{collect_tokens_at, insert_token, token_at}
use agent_veil.Prelude.{
  ℕ, ◌≡◌, ◌⊎◌, ◌∙◌, Text, List, some, [], ◌∷◌, In, ap, contains, contains→In, inl, inr, Bool-cases,
  Option-cases, refl, sym, subst,
}

insert_token-In : (t u : Text) (ts : List Text) → In t (insert_token u ts) → (t ≡ u) ⊎ In t ts
unfolding insert_token
insert_token-In t u ts m = elim (Bool-cases (contains ts u)) [
  | inl y ↦ inr (rw (insert_token, y) at m)
  | inr n ↦ rw (insert_token, n) at m
]

In-insert_token : (t u : Text) (ts : List Text) → (t ≡ u) ⊎ In t ts → In t (insert_token u ts)
unfolding insert_token
In-insert_token t u ts m = elim (Bool-cases (contains ts u)) [
  | inl y ↦
      rw (insert_token, y)
        (elim m [ inl e ↦ subst (λ x. In x ts) (sym e) (contains→In ts u y) | inr old ↦ old ])
  | inr n ↦ rw (insert_token, n) m
]

-- A token that is read at one of the starts.
abbrev pub ReadAt : Text → Text → List ℕ → Text → Type 0
ReadAt s prefix starts t = (start : ℕ) × In start starts × (token_at s prefix start ≡ some t)

pub collect_at-In :
    (s prefix t : Text) (starts : List ℕ) (ts : List Text)
    → In t (collect_tokens_at s prefix starts ts)
    → In t ts ⊎ ReadAt s prefix starts t
unfolding collect_tokens_at
collect_at-In s prefix t [] ts m = inl m
collect_at-In s prefix t (start ∷ starts) ts m = elim (Option-cases (token_at s prefix start)) [
  | inl no_token ↦
      elim (collect_at-In s prefix t starts ts (rw (collect_tokens_at, no_token) at m)) [
        | inl old ↦ inl old
        | inr (n, at, h) ↦ inr (n, inr at, h)
      ]
  | inr (u, found) ↦
      elim (collect_at-In s prefix t starts (insert_token u ts)
        (rw (collect_tokens_at, found) at m)) [
          | inr (n, at, h) ↦ inr (n, inr at, h)
          | inl kept ↦ elim (insert_token-In t u ts kept) [
            | inl e ↦ inr (start, inl refl, found ∙ ap some (sym e))
            | inr old ↦ inl old
          ]
        ]
]

pub In-collect_at :
    (s prefix t : Text) (starts : List ℕ) (ts : List Text)
    → In t ts ⊎ ReadAt s prefix starts t
    → In t (collect_tokens_at s prefix starts ts)
unfolding collect_tokens_at
In-collect_at s prefix t [] ts (inl old) = old
In-collect_at s prefix t [] ts (inr (n, at, h)) = absurd at
In-collect_at s prefix t (start ∷ starts) ts m = elim (Option-cases (token_at s prefix start)) [
  | inl no_token ↦
      rw (collect_tokens_at, no_token)
        (In-collect_at s prefix t starts ts (elim m [
          | inl old ↦ inl old
          | inr (n, inl e, h) ↦ absurd (cc (ap (token_at s prefix) e, h, no_token))
          | inr (n, inr at, h) ↦ inr (n, at, h)
        ]))
  | inr (u, found) ↦
      rw (collect_tokens_at, found)
        (In-collect_at s prefix t starts (insert_token u ts) (elim m [
          | inl old ↦ inl (In-insert_token t u ts (inr old))
          | inr (n, inl e, h) ↦
              inl (In-insert_token t u ts (inl (cc (ap (token_at s prefix) e, h, found))))
          | inr (n, inr at, h) ↦ inr (n, at, h)
        ]))
]
