-- ===== src/Net/Buffer/Socket.antt =====
-- `readFd` and `writeFd`: the contents after a system call moved some bytes.
use native.Mathlib.Decide.{dec_le}
use nebula_im.Base.{
  ℕ, ◌+◌, ◌≤◌, ◌<◌, ◌≡◌, ap, ◌∙◌, some, List, [], ◌++◌, append_assoc, length, take, drop, le→leb,
  lt→leb, drop-length, subst, length-take, length-drop, take-append-drop, take-length, arith,
}
use nebula_im.Net.Buffer.{
  Buffer, max_size, readable_bytes, writable_bytes, retrieve_all_as_string, copy_at, got, read_fd,
  wrote, write_fd,
}
use nebula_im.Net.Buffer.Contents.{
  IsValid, contents, Leaves, Fits, readable_lem, retrieve_lem, retrieve_as_string_lem, append_lem,
  stored, stored-Leaves, writable_lem,
}

-- `retrieveAllAsString` returns the contents and leaves the buffer empty.
pub retrieve_all_as_string_lem :
    (b : Buffer)
    → IsValid b
    → (b' : Buffer) × (retrieve_all_as_string b ≡ some (contents b, b')) × Leaves [] b'
unfolding retrieve_all_as_string
retrieve_all_as_string_lem b v =
    let (b', e, l) =
      retrieve_as_string_lem b (readable_bytes b) v (omega (arith, readable_lem b v)) in
    (
      b',
      e ∙ ap (λ t. some (t, b')) (take-length (readable_bytes b) (contents b) (readable_lem b v)),
      (l.0, l.1 ∙ drop-length (readable_bytes b) (contents b) (omega (arith, readable_lem b v))),
    )

abbrev filled : Buffer → List ℕ → Buffer
filled b bytes = record b {
  storage = copy_at b.storage b.writer_index (take (writable_bytes b) bytes);
  writer_index = length b.storage;
}

read_fd_long :
    (b : Buffer) (bytes : List ℕ)
    → IsValid b
    → writable_bytes b < length bytes
    → Fits b (length bytes)
    → (b' : Buffer) × (read_fd b (got bytes) ≡ some (got bytes, b'))
      × Leaves (contents b ++ bytes) b'
unfolding read_fd stored
read_fd_long b bytes v h fits =
    let (b', e, l) = append_lem (filled b bytes) (drop (writable_bytes b) bytes) after.0 fits' in
    (
      b',
      rw (lt→leb (writable_bytes b) (length bytes) h, e),
      (
        l.0,
        l.1
            ∙ ap (λ t. t ++ drop (writable_bytes b) bytes) after.1
            ∙ append_assoc (contents b) (take (writable_bytes b) bytes)
                (drop (writable_bytes b) bytes)
            ∙ ap (λ t. contents b ++ t) (take-append-drop (writable_bytes b) bytes),
      ),
    )
  where
    first : length (take (writable_bytes b) bytes) ≡ writable_bytes b
    first = omega (arith, length-take (writable_bytes b) bytes)

    full : b.writer_index + length (take (writable_bytes b) bytes) ≡ length b.storage
    full = omega (arith, first, writable_lem b v, v.within)

    after : Leaves (contents b ++ take (writable_bytes b) bytes) (filled b bytes)
    after =
        subst
          (λ k. Leaves (contents b ++ take (writable_bytes b) bytes) (record b {
            storage = copy_at b.storage b.writer_index (take (writable_bytes b) bytes);
            writer_index = k;
          }))
          full (stored-Leaves b (take (writable_bytes b) bytes) v (omega (arith, full)))

    fits' : length b.storage + length (drop (writable_bytes b) bytes) ≤ max_size
    fits' = omega (arith, length-drop (writable_bytes b) bytes, writable_lem b v, v.within)

-- Whatever bytes readv puts into the free space of a valid buffer and then into the extra
-- array, readFd leaves a valid buffer with exactly these bytes behind its contents, if the
-- write index and the bytes together stay within the size limit of a vector.
read_fd_lem :
    (b : Buffer) (bytes : List ℕ)
    → IsValid b
    → Fits b (length bytes)
    → (b' : Buffer) × (read_fd b (got bytes) ≡ some (got bytes, b'))
      × Leaves (contents b ++ bytes) b'
unfolding read_fd stored
read_fd_lem b bytes v fits = elim (dec_le (length bytes) (writable_bytes b)) [
  | yes h ↦ (
    stored b bytes,
    rw (le→leb (length bytes) (writable_bytes b) h) (ground arith),
    stored-Leaves b bytes v (omega (arith, writable_lem b v)),
  )
  | no h ↦ read_fd_long b bytes v (omega arith) fits
]

-- writeFd on a valid buffer drops the oldest bytes that send took, which are no more than it
-- was offered, and leaves a valid buffer.
pub write_fd_lem :
    (b : Buffer) (n : ℕ)
    → IsValid b
    → n ≤ length (contents b)
    → (b' : Buffer) × (write_fd b (wrote n) ≡ some (wrote n, b')) × Leaves (drop n (contents b)) b'
unfolding write_fd
write_fd_lem b n v h = let (b', e, l) = retrieve_lem b n v h in (b', rw e, l)
