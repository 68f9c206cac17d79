-- ===== src/Net/Buffer/Contents.antt =====
-- A buffer is a queue of bytes: its contents, its invariant, and what each operation does to them.
use nebula_im.Base.{
  ℕ, ◌+◌, ◌-◌, ◌≤◌, ◌<◌, ◌≡◌, ◌≢◌, refl, sym, ap, ◌∙◌, some, List, [], ◌++◌, length, take, drop,
  leb, le→leb, lt→ltb, le→ltb, true, ◌⊎◌, length-append, length-take, length-replicate, arith, inl,
  inr, replicate, drop-length,
}
use native.Mathlib.Decide.{ℕ_discrete, dec_lt}
use nebula_im.Net.Buffer.{
  Buffer, cheap_prepend, max_size, readable_bytes, writable_bytes, peek, retrieve_all, retrieve,
  retrieve_as_string, copy_at, resize, make_space, ensure_writable_bytes, has_written, append, init,
}
use nebula_im.Net.Buffer.Window.{
  window, length-window, length-copy_at, window-copy_at, window-resize, take-window, drop-window,
  window_empty,
}

pub record IsValid (b : Buffer) : Type 0 where
  pub prepend : cheap_prepend ≤ b.reader_index
  pub order : b.reader_index ≤ b.writer_index
  pub within : b.writer_index ≤ length b.storage
  pub small : length b.storage ≤ max_size

-- The bytes that wait to be read, oldest first.
abbrev pub contents : Buffer → List ℕ
contents b = window b.reader_index b.writer_index b.storage

pub readable_lem : (b : Buffer) → IsValid b → readable_bytes b ≡ length (contents b)
unfolding readable_bytes
readable_lem b v = omega (arith, length-window b.reader_index b.writer_index b.storage v.within)

-- A fresh buffer is valid and empty.
pub init-IsValid : IsValid init × (contents init ≡ [])
unfolding init
init-IsValid = (omega arith, refl)

retrieve_all-IsValid : (b : Buffer) → IsValid b → IsValid (retrieve_all b)
unfolding retrieve_all
retrieve_all-IsValid b v = omega arith

pub contents-retrieve_all : (b : Buffer) → contents (retrieve_all b) ≡ []
unfolding retrieve_all
contents-retrieve_all b = window_empty cheap_prepend b.storage

-- What an operation that must not abort leaves behind.
abbrev pub Leaves : List ℕ → Buffer → Type 0
Leaves bytes b = IsValid b × (contents b ≡ bytes)

pub retrieve_all_lem : (b : Buffer) → IsValid b → Leaves [] (retrieve_all b)
retrieve_all_lem b v = (retrieve_all-IsValid b v, contents-retrieve_all b)

retrieve-some :
    (b : Buffer) (n : ℕ)
    → IsValid b
    → n ≤ b.writer_index - b.reader_index
    → n ≢ b.writer_index - b.reader_index
    → retrieve b n ≡ some (record b { reader_index = b.reader_index + n })
unfolding retrieve
retrieve-some b n v h k = ground arith

retrieve_whole :
    (b : Buffer) → IsValid b → retrieve b (b.writer_index - b.reader_index) ≡ some (retrieve_all b)
unfolding retrieve
retrieve_whole b v = ground arith

-- `retrieve` of no more than is readable drops that many bytes.
pub retrieve_lem :
    (b : Buffer) (n : ℕ)
    → IsValid b
    → n ≤ length (contents b)
    → (b' : Buffer) × (retrieve b n ≡ some b') × Leaves (drop n (contents b)) b'
retrieve_lem b n v h = elim (ℕ_discrete n (b.writer_index - b.reader_index)) [
  | yes e ↦ (
    retrieve_all b,
    rw e (retrieve_whole b v),
    (
      retrieve_all-IsValid b v,
      contents-retrieve_all b ∙ sym (drop-length n (contents b) (omega (arith, size))),
    ),
  )
  | no ne ↦ (
    record b { reader_index = b.reader_index + n },
    retrieve-some b n v (omega (arith, size)) ne,
    (
      omega (arith, size),
      drop-window b.reader_index b.writer_index n b.storage (omega (arith, size)),
    ),
  )
]
  where
    size : length (contents b) ≡ b.writer_index - b.reader_index
    size = length-window b.reader_index b.writer_index b.storage v.within

-- retrieveAsString on a valid buffer, of no more bytes than are readable, returns the oldest
-- bytes and leaves a valid buffer without them.
pub retrieve_as_string_lem :
    (b : Buffer) (n : ℕ)
    → IsValid b
    → n ≤ length (contents b)
    → (b' : Buffer) × (retrieve_as_string b n ≡ some (take n (contents b), b'))
      × Leaves (drop n (contents b)) b'
unfolding retrieve_as_string
retrieve_as_string_lem b n v h =
    let (b', e, l) = retrieve_lem b n v h in
    (
      b',
      rw (le→leb n (readable_bytes b) (omega (arith, readable_lem b v)), e)
          (ap (λ t. some (t, b'))
            (take-window b.reader_index b.writer_index n b.storage
              (omega (arith, length-window b.reader_index b.writer_index b.storage v.within)))),
      l,
    )

compact : Buffer → Buffer
compact b = record {
  storage = copy_at b.storage cheap_prepend (contents b);
  reader_index = cheap_prepend;
  writer_index = cheap_prepend + (b.writer_index - b.reader_index);
}

grow : Buffer → ℕ → Buffer
grow b n = record b {
  storage =
      take (b.writer_index + n) b.storage ++ replicate (b.writer_index + n - length b.storage) 0;
}

-- What `makeSpace` is asked to make room for.
abbrev pub Fits : Buffer → ℕ → Type 0
Fits b n = b.writer_index + n ≤ max_size

-- `makeSpace` grows the vector, or moves the contents to its front.
make_space_cases :
    (b : Buffer) (n : ℕ)
    → IsValid b
    → Fits b n
    → (make_space b n ≡ some (grow b n))
      ⊎ ((make_space b n ≡ some (compact b))
          × (n + b.writer_index + cheap_prepend ≤ length b.storage + b.reader_index))
unfolding make_space resize grow compact peek
make_space_cases b n v h = ground arith

-- Valid, with the contents kept and room for `n` more bytes.
abbrev pub Room : Buffer → ℕ → Buffer → Type 0
Room b n b' = Leaves (contents b) b' × (b'.writer_index + n ≤ length b'.storage)

grow-Room :
    (b : Buffer) (n : ℕ)
    → IsValid b
    → Fits b n
    → length b.storage ≤ b.writer_index + n
    → Room b n (grow b n)
unfolding grow
grow-Room b n v h k = (
  (
    record {
      prepend = v.prepend;
      order = v.order;
      within = omega (arith, size);
      small = omega (arith, size);
    },
    window-resize b.reader_index b.writer_index (b.writer_index + n) b.storage pad v.order
        (omega arith) v.within,
  ),
  omega (arith, size),
)
  where
    pad : List ℕ
    pad = replicate (b.writer_index + n - length b.storage) 0

    size : length (take (b.writer_index + n) b.storage ++ pad) ≡ b.writer_index + n
    size = omega (
      arith,
      length-append (take (b.writer_index + n) b.storage) pad,
      length-take (b.writer_index + n) b.storage,
      length-replicate {A = ℕ} (b.writer_index + n - length b.storage) 0,
    )

compact-Room :
    (b : Buffer) (n : ℕ)
    → IsValid b
    → n + b.writer_index + cheap_prepend ≤ length b.storage + b.reader_index
    → Room b n (compact b)
unfolding compact
compact-Room b n v h = (
  (
    record {
      prepend = omega arith;
      order = omega arith;
      within = omega (arith, kept);
      small = omega (arith, kept, v.small);
    },
    ap (λ k. window cheap_prepend (cheap_prepend + k) (compact b).storage) (sym size)
        ∙ window-copy_at cheap_prepend cheap_prepend b.storage (contents b) (omega arith)
            (omega arith),
  ),
  omega (arith, kept),
)
  where
    size : length (contents b) ≡ b.writer_index - b.reader_index
    size = length-window b.reader_index b.writer_index b.storage v.within

    kept : length (copy_at b.storage cheap_prepend (contents b)) ≡ length b.storage
    kept = length-copy_at b.storage cheap_prepend (contents b) (omega (arith, size))

pub writable_lem : (b : Buffer) → IsValid b → writable_bytes b ≡ length b.storage - b.writer_index
unfolding writable_bytes
writable_lem b v = omega arith

has_room :
    (b : Buffer) (n : ℕ)
    → IsValid b
    → b.writer_index + n ≤ length b.storage
    → leb n (writable_bytes b) ≡ true
has_room b n v h = le→leb n (writable_bytes b) (omega (arith, writable_lem b v))

make_space_lem :
    (b : Buffer) (n : ℕ)
    → IsValid b
    → Fits b n
    → writable_bytes b < n
    → (b' : Buffer) × (make_space b n ≡ some b') × Room b n b'
make_space_lem b n v h short = elim (make_space_cases b n v h) [
  | inl e ↦ (grow b n, e, grow-Room b n v h (omega (arith, writable_lem b v)))
  | inr (e, room) ↦ (compact b, e, compact-Room b n v room)
]

-- `ensureWritableBytes` makes the room, and changes neither the contents nor the invariant.
pub ensure_writable_bytes_lem :
    (b : Buffer) (n : ℕ)
    → IsValid b
    → Fits b n
    → (b' : Buffer) × (ensure_writable_bytes b n ≡ some b') × Room b n b'
unfolding ensure_writable_bytes
ensure_writable_bytes_lem b n v h = elim (dec_lt (writable_bytes b) n) [
  | yes short ↦
      let (b', e, (l, room)) = make_space_lem b n v h short in
      (b', rw (lt→ltb (writable_bytes b) n short, e, has_room b' n l.0 room), (l, room))
  | no enough ↦
      let room : b.writer_index + n ≤ length b.storage = omega (arith, writable_lem b v) in
      (b, rw (le→ltb (writable_bytes b) n (omega arith), has_room b n v room), ((v, refl), room))
]

unfoldable pub stored : Buffer → List ℕ → Buffer
stored b bytes = record b {
  storage = copy_at b.storage b.writer_index bytes;
  writer_index = b.writer_index + length bytes;
}

pub stored-Leaves :
    (b : Buffer) (bytes : List ℕ)
    → IsValid b
    → b.writer_index + length bytes ≤ length b.storage
    → Leaves (contents b ++ bytes) (stored b bytes)
unfolding stored
stored-Leaves b bytes v h = (
  omega (arith, length-copy_at b.storage b.writer_index bytes h),
  window-copy_at b.reader_index b.writer_index b.storage bytes v.order v.within,
)

pub write_stored :
    (b : Buffer) (bytes : List ℕ)
    → IsValid b
    → b.writer_index + length bytes ≤ length b.storage
    → has_written (record b { storage = copy_at b.storage b.writer_index bytes }) (length bytes)
      ≡ some (stored b bytes)
unfolding has_written stored
write_stored b bytes v h = ground (arith, length-copy_at b.storage b.writer_index bytes)

-- append on a valid buffer does not abort, if the write index and the new bytes together stay
-- within the size limit of a vector, and leaves a valid buffer with the new bytes behind its
-- contents, whether it grows the storage, moves the contents to the front, or neither.
pub append_lem :
    (b : Buffer) (bytes : List ℕ)
    → IsValid b
    → Fits b (length bytes)
    → (b' : Buffer) × (append b bytes ≡ some b') × Leaves (contents b ++ bytes) b'
unfolding append
append_lem b bytes v h =
    let (b', e, (l, room)) = ensure_writable_bytes_lem b (length bytes) v h in
    let (v', same) = stored-Leaves b' bytes l.0 room in
    (stored b' bytes, rw e (write_stored b' bytes l.0 room), (v', same ∙ ap (λ t. t ++ bytes) l.1))
