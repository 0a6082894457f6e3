-- ===== src/Logging/Ring.antt =====
-- The ring holds the last 512 lines.
use terracotta_ffi.Base.{
  ℕ, zero, suc, ◌-◌, ◌≤◌, ◌≡◌, refl, sym, ap, ◌∙◌, inl, inr, true, List, [], ◌∷◌, ◌++◌, leb, length,
  length-append, drop, Text, arith, Bool-cases, append_assoc, append-nil,
}
use terracotta_ffi.Logging.{log}

-- The lines logged so far, oldest first.
unfoldable pub log_all : List Text → List Text → List Text
unfolding log
log_all ring [] = ring
log_all ring (line ∷ lines) = log_all (log ring line) lines

abbrev pub last : ℕ → List Text → List Text
last n xs = drop (length xs - n) xs

drop-drop : (n : ℕ) (xs : List Text) → drop 1 (drop n xs) ≡ drop (suc n) xs
drop-drop zero [] = refl
drop-drop zero (x ∷ xs) = refl
drop-drop (suc n) [] = refl
drop-drop (suc n) (x ∷ xs) = drop-drop n xs

drop-append_le : (n : ℕ) (xs ys : List Text) → n ≤ length xs → drop n (xs ++ ys) ≡ drop n xs ++ ys
drop-append_le zero xs ys h = refl
drop-append_le (suc n) [] ys h = ground arith
drop-append_le (suc n) (x ∷ xs) ys h = drop-append_le n xs ys (omega arith)

length-drop : (n : ℕ) (xs : List Text) → length (drop n xs) ≡ length xs - n
length-drop zero xs = omega arith
length-drop (suc n) [] = omega arith
length-drop (suc n) (x ∷ xs) = length-drop n xs ∙ omega arith

log-last :
    (seen : List Text) (line : Text) → log (last 512 seen) line ≡ last 512 (seen ++ line ∷ [])
unfolding log
log-last seen line = elim (Bool-cases (leb 512 (length seen))) [
  | inl w ↦
      let n : ℕ = length seen - 512 in
      let full : leb 512 (length (drop n seen)) ≡ true = ground (arith, length-drop n seen) in
      let next : length (seen ++ line ∷ []) - 512 ≡ suc n =
        ground (arith, length-append seen (line ∷ [])) in
      rw (full, next)
        (ap (λ l. l ++ line ∷ []) (drop-drop n seen)
          ∙ sym (drop-append_le (suc n) seen (line ∷ []) (ground arith)))
  | inr w ↦
      let none_lost : length seen - 512 ≡ 0 = ground arith in
      let next : length (seen ++ line ∷ []) - 512 ≡ 0 =
        ground (arith, length-append seen (line ∷ [])) in
      rw (none_lost, w, next) refl
]

log_all-from : (seen lines : List Text) → log_all (last 512 seen) lines ≡ last 512 (seen ++ lines)
unfolding log_all
log_all-from seen [] = ap (last 512) (sym (append-nil seen))
log_all-from seen (line ∷ lines) =
    rw (log-last seen line) (log_all-from (seen ++ line ∷ []) lines)
    ∙ ap (last 512) (append_assoc seen (line ∷ []) lines)

-- Whatever is logged, the ring holds the last 512 lines in order.
pub log_all-last : (lines : List Text) → log_all [] lines ≡ last 512 lines
log_all-last lines = log_all-from [] lines
