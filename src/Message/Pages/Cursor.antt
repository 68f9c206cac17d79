-- ===== src/Message/Pages/Cursor.antt =====
-- The rows that a cursor leaves, and how a page is cut from them.
use nebula_im.Base.{
  ℕ, zero, suc, ◌+◌, ◌<◌, ◌≤◌, ◌≡◌, refl, sym, ap, ◌∙◌, true, false, List, [], ◌∷◌, ◌++◌,
  append-nil, append_assoc, length, length-append, take, lt→ltb, le→ltb, ◌⊎◌, inl, inr, arith,
}
use nebula_im.Message.Tables.{MessageRecord}
use nebula_im.Message.Pages.{is_older, older_rows, reversed, filled_page, page_of}

-- The order of the query, newest first, in which no two rows have one key.
abbrev Precedes : MessageRecord → MessageRecord → Type 0
Precedes r s =
    (s.created_at < r.created_at) ⊎ ((s.created_at ≡ r.created_at) × (s.message_id < r.message_id))

abbrev PrecedesAll : MessageRecord → List MessageRecord → Type 0
PrecedesAll r [] = Unit {0}
PrecedesAll r (s ∷ rows) = Precedes r s × PrecedesAll r rows

abbrev pub Descends : List MessageRecord → Type 0
Descends [] = Unit {0}
Descends (r ∷ rows) =
    (0 < r.created_at) × ((0 < r.message_id) × (PrecedesAll r rows × Descends rows))

is_older-Precedes :
    (k r : MessageRecord)
    → 0 < k.created_at
    → 0 < k.message_id
    → Precedes k r
    → is_older k.created_at k.message_id r ≡ true
unfolding is_older
is_older-Precedes k r h i (inl p) = ground arith
is_older-Precedes k r h i (inr p) = ground arith

is_older_newer :
    (k r : MessageRecord)
    → 0 < k.created_at
    → 0 < k.message_id
    → Precedes r k
    → is_older k.created_at k.message_id r ≡ false
unfolding is_older
is_older_newer k r h i (inl p) = ground arith
is_older_newer k r h i (inr p) = ground arith

is_older_self :
    (k : MessageRecord)
    → 0 < k.created_at
    → 0 < k.message_id
    → is_older k.created_at k.message_id k ≡ false
unfolding is_older
is_older_self k h i = ground arith

older_rows-PrecedesAll :
    (k : MessageRecord) (rows : List MessageRecord)
    → 0 < k.created_at
    → 0 < k.message_id
    → PrecedesAll k rows
    → older_rows k.created_at k.message_id rows ≡ rows
unfolding older_rows
older_rows-PrecedesAll k [] h i p = refl
older_rows-PrecedesAll k (r ∷ rows) h i (p, ps) =
    rw (is_older-Precedes k r h i p, older_rows-PrecedesAll k rows h i ps)

Precedes-append :
    (r k : MessageRecord) (seen later : List MessageRecord)
    → PrecedesAll r (seen ++ (k ∷ later))
    → Precedes r k
Precedes-append r k [] later (p, ps) = p
Precedes-append r k (s ∷ seen) later (p, ps) = Precedes-append r k seen later ps

Descends-append : (seen rows : List MessageRecord) → Descends (seen ++ rows) → Descends rows
Descends-append [] rows d = d
Descends-append (s ∷ seen) rows (h, (i, (ps, d))) = Descends-append seen rows d

-- The cursor of a row leaves the rows that come later.
pub older_rows_lem :
    (seen : List MessageRecord) (k : MessageRecord) (later : List MessageRecord)
    → Descends (seen ++ (k ∷ later))
    → older_rows k.created_at k.message_id (seen ++ (k ∷ later)) ≡ later
unfolding older_rows
older_rows_lem [] k later (h, (i, (ps, d))) =
    rw (is_older_self k h i, older_rows-PrecedesAll k later h i ps)
older_rows_lem (r ∷ seen) k later (h, (i, (ps, d))) =
    let (timed, (named, _)) = Descends-append seen (k ∷ later) d in
    rw (
      is_older_newer k r timed named (Precedes-append r k seen later ps),
      older_rows_lem seen k later d,
    )

pub older_rows_all : (rows : List MessageRecord) → older_rows 0 0 rows ≡ rows
unfolding older_rows is_older
older_rows_all [] = refl
older_rows_all (r ∷ rows) = rw (older_rows_all rows)

-- The rows that are left fill one page or less, or a page and more.
abbrev pub More : ℕ → List MessageRecord → Type 0
More limit rows =
    (front : List MessageRecord) × ((k : MessageRecord) × ((r : MessageRecord) × ((later : List
            MessageRecord)
          × ((rows ≡ front ++ (k ∷ (r ∷ later))) × (suc (length front) ≡ limit)))))

pub splits :
    (limit : ℕ) (rows : List MessageRecord) → 0 < limit → (length rows ≤ limit) ⊎ More limit rows
splits zero rows h = absurd (omega arith)
splits (suc limit) [] h = inl (omega arith)
splits (suc zero) (k ∷ []) h = inl (omega arith)
splits (suc zero) (k ∷ (r ∷ later)) h = inr ([], (k, (r, (later, (refl, refl)))))
splits (suc (suc limit)) (s ∷ rows) h = elim (splits (suc limit) rows (omega arith)) [
  | inl e ↦ inl (omega arith)
  | inr (front, (k, (r, (later, (e, m))))) ↦
      inr (s ∷ front, (k, (r, (later, (ap (λ t. s ∷ t) e, ap suc m)))))
]

take_all : (n : ℕ) (rows : List MessageRecord) → length rows ≤ n → take n rows ≡ rows
take_all zero [] h = refl
take_all (suc n) [] h = refl
take_all zero (r ∷ rows) h = absurd (omega arith)
take_all (suc n) (r ∷ rows) h = ap (λ t. r ∷ t) (take_all n rows (omega arith))

pub reversed_append :
    (xs ys : List MessageRecord) → reversed (xs ++ ys) ≡ reversed ys ++ reversed xs
reversed_append [] ys = sym (append-nil (reversed ys))
reversed_append (x ∷ xs) ys =
    ap (λ t. t ++ (x ∷ [])) (reversed_append xs ys)
    ∙ append_assoc (reversed ys) (reversed xs) (x ∷ [])

-- The last page.
pub page_of_last :
    (limit : ℕ) (rows : List MessageRecord)
    → length rows ≤ limit
    → page_of limit (take (suc limit) rows) ≡ filled_page (reversed rows) false
unfolding page_of
page_of_last limit rows h =
    rw (take_all (suc limit) rows (omega arith), le→ltb limit (length rows) h)

take_front :
    (front : List MessageRecord) (k r : MessageRecord) (later : List MessageRecord)
    → take (suc (length front)) (front ++ (k ∷ (r ∷ later))) ≡ front ++ (k ∷ [])
take_front [] k r later = refl
take_front (s ∷ front) k r later = ap (λ t. s ∷ t) (take_front front k r later)

take_front_more :
    (front : List MessageRecord) (k r : MessageRecord) (later : List MessageRecord)
    → take (suc (suc (length front))) (front ++ (k ∷ (r ∷ later))) ≡ front ++ (k ∷ (r ∷ []))
take_front_more [] k r later = refl
take_front_more (s ∷ front) k r later = ap (λ t. s ∷ t) (take_front_more front k r later)

-- A page that is followed by another.
pub page_of_more :
    (front : List MessageRecord) (k r : MessageRecord) (later : List MessageRecord)
    → page_of (suc (length front)) (take (suc (suc (length front))) (front ++ (k ∷ (r ∷ later))))
      ≡ filled_page (k ∷ reversed front) true
unfolding page_of
page_of_more front k r later = rw (
  take_front_more front k r later,
  length-append front (k ∷ (r ∷ [])),
  lt→ltb (suc (length front)) (length front + 2) (omega arith),
  take_front front k r [],
  reversed_append front (k ∷ []),
)
