-- ===== src/Http/Stream.antt =====
-- The body of an HTTP response, and Go's io.CopyN to io.Discard and io.ReadFull on it. A body is the
-- bytes that it still yields and what follows them: `none` for the end, or the error of a read.
use webfs.Base.{ℕ, Option, none, some, List, [], ◌++◌, length, take, drop, leb, if◌then◌else◌}
use webfs.Base.Result.{Error, eof, unexpected_eof}

pub record Body : Type 0 where
  pub bytes : List ℕ
  pub end : Option Error

-- io.CopyN(io.Discard, body, n): how many bytes were copied, the error, the body that is left
unfoldable pub discard : ℕ → Body → ℕ × Option Error × Body
discard n b =
    if leb n (length b.bytes)
    then (n, none, record b { bytes = drop n b.bytes })
    else (length b.bytes, some (elim b.end [ none ↦ eof | some e ↦ e ]), record b { bytes = [] })

-- What io.ReadFull reports when the body ended after n bytes.
abbrev pub short_read : ℕ → Option Error → Error
short_read n none = if leb n 0 then eof else unexpected_eof
short_read n (some e) = e

-- io.ReadFull(body, buf): how many bytes were read, the error, and the buffer
unfoldable pub read_full : Body → List ℕ → ℕ × Option Error × List ℕ
read_full b buf =
    let n = length b.bytes in
    if leb (length buf) n
    then (length buf, none, take (length buf) b.bytes)
    else (n, some (short_read n b.end), b.bytes ++ drop n buf)
