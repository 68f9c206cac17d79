-- ===== src/Net/Buffer/Window.antt =====
-- The part of a vector between two indices, and what writes to the vector do to it.
use nebula_im.Base.{
  ℕ, ◌+◌, ◌-◌, ◌≤◌, ◌≡◌, sym, ap, ◌∙◌, List, [], ◌++◌, append_assoc, length, take, drop,
  length-append, length-take, length-drop, take_append_le, take_append_length, drop_append_le,
  take-drop, take-take_le, drop-drop, arith,
}
use nebula_im.Net.Buffer.{copy_at}

abbrev pub window : ℕ → ℕ → List ℕ → List ℕ
window r w s = take (w - r) (drop r s)

pub length-window : (r w : ℕ) (s : List ℕ) → w ≤ length s → length (window r w s) ≡ w - r
length-window r w s h = omega (arith, length-take (w - r) (drop r s), length-drop r s)

pub window-eq-drop : (r w : ℕ) (s : List ℕ) → r ≤ w → window r w s ≡ drop r (take w s)
window-eq-drop r w s h = take-drop (w - r) r s ∙ ap (λ k. drop r (take k s)) (omega arith)

pub length-copy_at :
    (s : List ℕ) (i : ℕ) (bytes : List ℕ)
    → i + length bytes ≤ length s
    → length (copy_at s i bytes) ≡ length s
length-copy_at s i bytes h = omega (
  arith,
  length-append (take i s) (bytes ++ drop (i + length bytes) s),
  length-append bytes (drop (i + length bytes) s),
  length-take i s,
  length-drop (i + length bytes) s,
)

-- Writing just past a window extends it by the bytes written.
pub window-copy_at :
    (r w : ℕ) (s bytes : List ℕ)
    → r ≤ w
    → w ≤ length s
    → window r (w + length bytes) (copy_at s w bytes) ≡ window r w s ++ bytes
window-copy_at r w s bytes h k =
    ap (take (w + length bytes - r))
      (drop_append_le r (take w s) tail (omega (arith, length-take w s)))
    ∙ ap (take (w + length bytes - r)) (sym (append_assoc (drop r (take w s)) bytes rest))
    ∙ take_append_length (w + length bytes - r) (drop r (take w s) ++ bytes) rest (
        omega (
          arith,
          length-append (drop r (take w s)) bytes,
          length-drop r (take w s),
          length-take w s,
        ))
    ∙ ap (λ t. t ++ bytes) (sym (window-eq-drop r w s h))
  where
    rest : List ℕ
    rest = drop (w + length bytes) s

    tail : List ℕ
    tail = bytes ++ rest

-- Cutting or filling the vector behind a window leaves the window.
pub window-resize :
    (r w n : ℕ) (s pad : List ℕ)
    → r ≤ w
    → w ≤ n
    → w ≤ length s
    → window r w (take n s ++ pad) ≡ window r w s
window-resize r w n s pad h k l =
    window-eq-drop r w (take n s ++ pad) h
    ∙ ap (drop r) (take_append_le w (take n s) pad (omega (arith, length-take n s)))
    ∙ ap (drop r) (take-take_le w n s k)
    ∙ sym (window-eq-drop r w s h)

-- Reading off the front of a window.
pub take-window : (r w n : ℕ) (s : List ℕ) → n ≤ w - r → take n (drop r s) ≡ take n (window r w s)
take-window r w n s h = sym (take-take_le n (w - r) (drop r s) h)

pub drop-window : (r w n : ℕ) (s : List ℕ) → r + n ≤ w → window (r + n) w s ≡ drop n (window r w s)
drop-window r w n s h =
    ap (take (w - (r + n))) (sym (drop-drop n r s))
    ∙ take-drop (w - (r + n)) n (drop r s)
    ∙ ap (λ k. drop n (take k (drop r s))) (omega arith)

pub window_empty : (r : ℕ) (s : List ℕ) → window r r s ≡ []
window_empty r s = ap (λ k. take k (drop r s)) (let e : r - r ≡ 0 = omega arith in e)
