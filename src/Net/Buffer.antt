-- ===== src/Net/Buffer.antt =====
-- common/net/Buffer.{h,cpp}. An operation on `*this` returns the new buffer. `none` is an abort:
-- a failed `assert`, or the `std::length_error` of a `resize` beyond `vector<char>::max_size()`.
pub mod Window
pub mod Contents
pub mod Socket
use nebula_im.Base.{
  ℕ, ◌+◌, ◌-◌, ◌^◌, Option, none, some, List, ◌++◌, length, take, drop, replicate, ltb, leb,
  if◌then◌else◌, ◌>>=◌, ◌>>◌, assert, add_size, sub_size,
}

pub record Buffer : Type 0 where
  pub storage : List ℕ
  pub reader_index : ℕ
  pub writer_index : ℕ

abbrev pub cheap_prepend : ℕ
cheap_prepend = 8

abbrev pub initial_size : ℕ
initial_size = 1024

-- The size limit of a vector of bytes in libstdc++.
abbrev pub max_size : ℕ
max_size = 2 ^ 63 - 1

unfoldable pub init : Buffer
init = record {
  storage = replicate (cheap_prepend + initial_size) 0;
  reader_index = cheap_prepend;
  writer_index = cheap_prepend;
}

unfoldable pub readable_bytes : Buffer → ℕ
readable_bytes b = sub_size b.writer_index b.reader_index

unfoldable pub writable_bytes : Buffer → ℕ
writable_bytes b = sub_size (length b.storage) b.writer_index

unfoldable pub prependable_bytes : Buffer → ℕ
prependable_bytes b = b.reader_index

-- The bytes from the read pointer to the end of the storage.
unfoldable pub peek : Buffer → List ℕ
peek b = drop b.reader_index b.storage

unfoldable pub retrieve_all : Buffer → Buffer
retrieve_all b = record b { reader_index = cheap_prepend; writer_index = cheap_prepend }

unfoldable pub retrieve : Buffer → ℕ → Option Buffer
unfolding readable_bytes retrieve_all
retrieve b len = do
  assert (leb len (readable_bytes b))
  some (
      if ltb len (readable_bytes b)
      then record b { reader_index = add_size b.reader_index len }
      else retrieve_all b)

unfoldable pub retrieve_as_string : Buffer → ℕ → Option (List ℕ × Buffer)
unfolding readable_bytes peek
retrieve_as_string b len = do
  assert (leb len (readable_bytes b))
  let result = take len (peek b)
  b' ← retrieve b len
  some (result, b')

unfoldable pub retrieve_all_as_string : Buffer → Option (List ℕ × Buffer)
unfolding readable_bytes
retrieve_all_as_string b = retrieve_as_string b (readable_bytes b)

-- `std::copy` of `bytes` to index `i` of the storage.
abbrev pub copy_at : List ℕ → ℕ → List ℕ → List ℕ
copy_at storage i bytes = take i storage ++ (bytes ++ drop (i + length bytes) storage)

-- `vector::resize`, which fills with zero bytes.
unfoldable pub resize : List ℕ → ℕ → Option (List ℕ)
resize storage n =
    if ltb max_size n then none else some (take n storage ++ replicate (n - length storage) 0)

unfoldable pub make_space : Buffer → ℕ → Option Buffer
unfolding readable_bytes writable_bytes prependable_bytes
make_space b len =
    if ltb (add_size (writable_bytes b) (prependable_bytes b)) (add_size len cheap_prepend)
    then (do
      grown ← resize b.storage (add_size b.writer_index len)
      some (record b { storage = grown }))
    else (let readable = readable_bytes b in
        some (record {
          storage = copy_at b.storage cheap_prepend (take (readable_bytes b) (peek b));
          reader_index = cheap_prepend;
          writer_index = add_size cheap_prepend readable;
        }))

unfoldable pub ensure_writable_bytes : Buffer → ℕ → Option Buffer
unfolding writable_bytes
ensure_writable_bytes b len = do
  b' ← (if ltb (writable_bytes b) len then make_space b len else some b)
  assert (leb len (writable_bytes b'))
  some b'

unfoldable pub has_written : Buffer → ℕ → Option Buffer
unfolding writable_bytes
has_written b len = do
  assert (leb len (writable_bytes b))
  some (record b { writer_index = add_size b.writer_index len })

unfoldable pub append : Buffer → List ℕ → Option Buffer
append b bytes = do
  b' ← ensure_writable_bytes b (length bytes)
  has_written (record b' { storage = copy_at b'.storage b'.writer_index bytes }) (length bytes)

-- What a system call on the socket gave: an error number, or the bytes moved.
pub data ReadResult : Type 0 where
  failed : ℕ → ReadResult
  got : List ℕ → ReadResult

abbrev pub extra_size : ℕ
extra_size = 65536

-- The room that `readv` is offered: the second vector is used only where the first is short.
unfoldable pub read_limit : Buffer → ℕ
unfolding writable_bytes
read_limit b =
    if ltb (writable_bytes b) extra_size then writable_bytes b + extra_size else writable_bytes b

-- `readFd` with what `readv` returned; the pair is (result, errno).
unfoldable pub read_fd : Buffer → ReadResult → Option (ReadResult × Buffer)
unfolding writable_bytes
read_fd b (failed e) = some (failed e, b)
read_fd b (got bytes) =
    if leb (length bytes) (writable_bytes b)
    then some (
      got bytes,
      record b {
        storage = copy_at b.storage b.writer_index bytes;
        writer_index = add_size b.writer_index (length bytes);
      },
    )
    else (do
      let writable = writable_bytes b
      let filled = record b {
        storage = copy_at b.storage b.writer_index (take writable bytes);
        writer_index = length b.storage;
      }
      b' ← append filled (drop writable bytes)
      some (got bytes, b'))

pub data WriteResult : Type 0 where
  write_failed : ℕ → WriteResult
  wrote : ℕ → WriteResult

-- `writeFd` with what `send` returned.
unfoldable pub write_fd : Buffer → WriteResult → Option (WriteResult × Buffer)
write_fd b (write_failed e) = some (write_failed e, b)
write_fd b (wrote n) = do b' ← retrieve b n; some (wrote n, b')
