-- ===== src/Sse/Chunks/Ends.antt =====
-- `find_frame_end` of src/sse.rs: its bounds, and that more text does not move what it finds.
use agent_veil.Sse.Frame.{find_frame_end}
use agent_veil.Sse.Text.{starts_with, strip_prefix}
use agent_veil.Prelude.{
  ℕ, ◌≤◌, ◌≡◌, Text, [], ◌∷◌, ◌++◌, some, length, arith, Option-cases, inl, inr, true, refl, false,
  Bool-cases, suc, ◌∙◌, ap, sym,
}

abbrev lf_lf : Text
lf_lf = b'\n' ∷ b'\n' ∷ []

abbrev crlf_crlf : Text
crlf_crlf = b'\r' ∷ b'\n' ∷ b'\r' ∷ b'\n' ∷ []

length_of_starts_with : (s p : Text) → starts_with s p ≡ true → length p ≤ length s
unfolding starts_with strip_prefix
length_of_starts_with s [] h = omega arith
length_of_starts_with [] (a ∷ p) h = cc h
length_of_starts_with (b ∷ s) (a ∷ p) h = ground (arith, length_of_starts_with s p)

starts_with-append : (s t p : Text) → length p ≤ length s → starts_with (s ++ t) p ≡ starts_with s p
unfolding starts_with strip_prefix
starts_with-append s t [] h = refl
starts_with-append [] t (a ∷ p) h = absurd (omega arith)
starts_with-append (b ∷ s) t (a ∷ p) h = ground (arith, starts_with-append s t p)

-- Three bytes that hold a frame end after the first do not begin a second kind of end.
short_end :
    (a b c e : ℕ) (t : Text)
    → find_frame_end (b ∷ c ∷ []) ≡ some e
    → starts_with (a ∷ b ∷ c ∷ t) crlf_crlf ≡ false
unfolding find_frame_end starts_with strip_prefix
short_end a b c e t h = ground arith

data EndCase (b : ℕ) (s : Text) (e : ℕ) : Type 0 where
  lf : starts_with (b ∷ s) lf_lf ≡ true → e ≡ 2 → EndCase b s e
  crlf :
      starts_with (b ∷ s) lf_lf ≡ false
      → starts_with (b ∷ s) crlf_crlf ≡ true
      → e ≡ 4
      → EndCase b s e
  later :
      (f : ℕ)
      → starts_with (b ∷ s) lf_lf ≡ false
      → starts_with (b ∷ s) crlf_crlf ≡ false
      → find_frame_end s ≡ some f
      → e ≡ suc f
      → EndCase b s e

end_case : (b : ℕ) (s : Text) (e : ℕ) → find_frame_end (b ∷ s) ≡ some e → EndCase b s e
unfolding find_frame_end
end_case b s e h = elim (Bool-cases (starts_with (b ∷ s) lf_lf)) [
  | inl t ↦ EndCase.lf t (ground arith)
  | inr f ↦ elim (Bool-cases (starts_with (b ∷ s) crlf_crlf)) [
    | inl t ↦ EndCase.crlf f t (ground arith)
    | inr g ↦ elim (Option-cases (find_frame_end s)) [
      | inl no_end ↦ absurd (ground arith)
      | inr (x, found) ↦ EndCase.later x f g found (ground arith)
    ]
  ]
]

-- A frame end is behind two bytes at least, and inside the text.
pub find_frame_end_bounds :
    (s : Text) (e : ℕ) → find_frame_end s ≡ some e → (2 ≤ e) × (e ≤ length s)
find_frame_end_bounds [] e h = unfold find_frame_end in cc h
find_frame_end_bounds (b ∷ s) e h = elim (end_case b s e h) [
  | EndCase.lf t two ↦ omega (arith, length_of_starts_with (b ∷ s) lf_lf t)
  | EndCase.crlf f t four ↦ omega (arith, length_of_starts_with (b ∷ s) crlf_crlf t)
  | EndCase.later x f g found next ↦ omega (arith, find_frame_end_bounds s x found)
]

find_frame_end_later :
    (b : ℕ) (s : Text) (x : ℕ)
    → starts_with (b ∷ s) lf_lf ≡ false
    → starts_with (b ∷ s) crlf_crlf ≡ false
    → find_frame_end s ≡ some x
    → find_frame_end (b ∷ s) ≡ some (suc x)
unfolding find_frame_end
find_frame_end_later b s x f g found = rw (f, g, found) refl

-- More text behind does not move the first frame end.
pub find_frame_end-append :
    (s t : Text) (e : ℕ) → find_frame_end s ≡ some e → find_frame_end (s ++ t) ≡ some e
find_frame_end-append [] t e h = absurd (unfold find_frame_end in cc h)
find_frame_end-append (b ∷ s) t e h = elim (end_case b s e h) [
  | EndCase.lf y two ↦
      unfold find_frame_end in
      rw (starts_with-append (b ∷ s) t lf_lf (length_of_starts_with (b ∷ s) lf_lf y), y)
        (ap some (sym two))
  | EndCase.crlf f y four ↦
      let long = length_of_starts_with (b ∷ s) crlf_crlf y in
      unfold find_frame_end in
      rw
        (
          starts_with-append (b ∷ s) t lf_lf (omega arith),
          f,
          starts_with-append (b ∷ s) t crlf_crlf long,
          y,
        )
        (ap some (sym four))
  | EndCase.later x f g found next ↦
      find_frame_end_later b (s ++ t) x
        (starts_with-append (b ∷ s) t lf_lf (omega (arith, find_frame_end_bounds s x found)) ∙ f)
        (no_crlf s x found g) (find_frame_end-append s t x found)
      ∙ ap some (sym next)
]
  where
    no_crlf :
        (u : Text) (x : ℕ)
        → find_frame_end u ≡ some x
        → starts_with (b ∷ u) crlf_crlf ≡ false
        → starts_with (b ∷ u ++ t) crlf_crlf ≡ false
    no_crlf [] x found g = absurd (unfold find_frame_end in cc found)
    no_crlf (c ∷ []) x found g = absurd (omega (arith, find_frame_end_bounds (c ∷ []) x found))
    no_crlf (c ∷ d ∷ []) x found g = short_end b c d x t found
    no_crlf (c ∷ d ∷ i ∷ u) x found g =
        starts_with-append (b ∷ c ∷ d ∷ i ∷ u) t crlf_crlf (omega arith) ∙ g
