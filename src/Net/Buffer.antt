-- ===== src/Net/Buffer.antt =====
-- LALI/net/Buffer.h and Buffer.cpp: the growing byte buffer of a connection.
-- `storage` is the vector `buffer_`, so its length is the vector's size. Pointers into the buffer
-- are offsets. A copy past the end of the vector is undefined in the source; here it extends the
-- storage, and the theorems require or establish that it does not happen.
pub mod Content
pub mod Search
pub mod Queue
mod Tests
use lali_rpc_frame.Base.{
  Bytes, ltb, leb, ◌==◌, if◌then◌else◌, length, take, drop, replicate, ℕ, suc, ◌+◌, ◌-◌, ◌≤◌, ◌&&◌,
  Option, none, some, [], ◌∷◌, ◌++◌,
}
unfoldable pub use lali_rpc_frame.Base.{copy_to}

pub record Buffer : Type 0 where
  pub storage : Bytes
  pub reader_index : ℕ
  pub writer_index : ℕ

abbrev pub cheap_prepend : ℕ
cheap_prepend = 8

abbrev pub initial_size : ℕ
initial_size = 1024

-- The stack buffer of `readFd`.
abbrev pub extra_size : ℕ
extra_size = 65536

pub new_buffer : Buffer
new_buffer = record {
  storage = replicate (cheap_prepend + initial_size) 0;
  reader_index = cheap_prepend;
  writer_index = cheap_prepend;
}

abbrev pub readable_bytes : Buffer → ℕ
readable_bytes b = b.writer_index - b.reader_index

abbrev pub writable_bytes : Buffer → ℕ
writable_bytes b = length b.storage - b.writer_index

abbrev pub prependable_bytes : Buffer → ℕ
prependable_bytes b = b.reader_index

-- The bytes from `peek()` up to `beginWrite()`.
unfoldable pub readable : Buffer → Bytes
readable b = take (readable_bytes b) (drop b.reader_index b.storage)

-- std::vector::resize.
abbrev pub resize : ℕ → Bytes → Bytes
resize n storage = take n storage ++ replicate (n - length storage) 0

-- std::search for "\r\n": the offset of its first occurrence.
unfoldable pub search_crlf : Bytes → Option ℕ
search_crlf [] = none
search_crlf (c ∷ []) = none
search_crlf (c ∷ d ∷ rest) =
    let later = search_crlf (d ∷ rest) in
    if c == 13 && d == 10 then some 0 else elim later [ none ↦ none | some k ↦ some (suc k) ]

unfoldable pub find_crlf : Buffer → Option ℕ
find_crlf b = search_crlf (readable b)

unfoldable pub retrieve_all : Buffer → Buffer
retrieve_all b = record b { reader_index = cheap_prepend; writer_index = cheap_prepend }

unfoldable pub retrieve : ℕ → Buffer → Buffer
unfolding retrieve_all
retrieve n b =
    if ltb n (readable_bytes b)
    then record b { reader_index = b.reader_index + n }
    else retrieve_all b

-- `end` is an offset from `peek()`, so the distance is the offset itself.
abbrev pub retrieve_until : ℕ → Buffer → Buffer
retrieve_until end b = retrieve end b

unfoldable pub retrieve_as_string : Buffer → Bytes × Buffer
unfolding retrieve_all
retrieve_as_string b = (readable b, retrieve_all b)

unfoldable pub make_space : ℕ → Buffer → Buffer
make_space n b =
    if ltb (writable_bytes b + prependable_bytes b) (n + cheap_prepend)
    then record b { storage = resize (b.writer_index + n) b.storage }
    else record {
      storage = copy_to cheap_prepend (readable b) b.storage;
      reader_index = cheap_prepend;
      writer_index = cheap_prepend + readable_bytes b;
    }

unfoldable pub ensure_writable_bytes : ℕ → Buffer → Buffer
unfolding make_space
ensure_writable_bytes n b = if ltb (writable_bytes b) n then make_space n b else b

abbrev pub has_written : ℕ → Buffer → Buffer
has_written n b = record b { writer_index = b.writer_index + n }

-- The copy to `beginWrite()`, without the index.
abbrev pub write_at_end : Bytes → Buffer → Buffer
write_at_end bytes b = record b { storage = copy_to b.writer_index bytes b.storage }

unfoldable pub append : Bytes → Buffer → Buffer
unfolding ensure_writable_bytes
append bytes b =
    has_written (length bytes) (write_at_end bytes (ensure_writable_bytes (length bytes) b))

-- Nothing checks that the space in front suffices.
unfoldable pub prepend : Bytes → Buffer → Buffer
prepend bytes b = record b {
  storage = copy_to (b.reader_index - length bytes) bytes b.storage;
  reader_index = b.reader_index - length bytes;
}

-- The new vector takes the place of the old one, and the two indices stay as they are. With fewer bytes
-- reserved than were consumed, the write index lies behind the new vector: the buffer is not valid
-- then, and what the source reads from it is undefined.
unfoldable pub shrink : ℕ → Buffer → Buffer
shrink reserve b = record b {
  storage =
      copy_to cheap_prepend (readable b) (replicate (cheap_prepend + readable_bytes b + reserve) 0);
}

-- What readv(2) gives `readFd`: an error number, or the bytes that it delivered.
pub data ReadResult : Type 0 where
  failed : ℕ → ReadResult
  received : Bytes → ReadResult

-- `readv` fills the writable part first and the stack buffer after it. The number returned is that
-- of the bytes, or `none` for -1, with the error saved.
unfoldable pub read_fd : ReadResult → Buffer → Option ℕ × Buffer
unfolding append
read_fd (failed errno) b = (none, b)
read_fd (received bytes) b =
    if leb (length bytes) (writable_bytes b)
    then (some (length bytes), has_written (length bytes) (write_at_end bytes b))
    else (some (length bytes), append extra (record full { writer_index = length full.storage }))
  where
    full : Buffer
    full = write_at_end (take (writable_bytes b) bytes) b

    extra : Bytes
    extra = drop (writable_bytes b) bytes

-- std::swap of the three fields.
unfoldable pub swap : Buffer × Buffer → Buffer × Buffer
swap (a, b) = (b, a)

-- 0 ≤ readerIndex_ ≤ writerIndex_ ≤ buffer_.size(), and the vector never loses its first bytes.
pub record IsValid (b : Buffer) : Type 0 where
  pub ordered : b.reader_index ≤ b.writer_index
  pub inside : b.writer_index ≤ length b.storage
  pub based : cheap_prepend ≤ length b.storage
