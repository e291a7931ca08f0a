-- ===== src/Examples/Server.antt =====
-- An environment to run the model in: every adapter but number 9 serves one small file, number 9
-- fails, and each call of the clock moves it on.
use webfs.Base.{
  ℕ, ◌+◌, ◌≤◌, ◌≡◌, ◌≢◌, refl, ap, ◌∙◌, Bool, true, false, Option, none, some, List, [], ◌∷◌, ◌++◌,
  length, take, drop, arith, nat_beq, if◌then◌else◌, length-take, length-drop, length-append,
  take_all,
}
use webfs.Base.Int.{ℤ, pos, negsuc}
use webfs.Base.Result.{Result, ok, err, panics, external}
use webfs.External.{Env, Attr, Time, unix_u64, nanosecond}
use webfs.Cache.Coherence.{window}
use webfs.Inode.Reads.{ServesRead, Serves, KeepsBuffer}

abbrev pub served_file : List ℕ
served_file = 10 ∷ 20 ∷ 30 ∷ 40 ∷ 50 ∷ []

-- What goes into a buffer.
abbrev pub served : ℕ → ℕ → List ℕ → List ℕ
served offset size buf = take (length buf) (window served_file offset size)

abbrev pub serve : ℤ → ℤ → List ℕ → ℕ → ℤ × Result (Unit {0}) × List ℕ × ℕ
serve (pos offset) (pos size) buf w =
    let win = served offset size buf in
    (pos (length win), ok tt, win ++ drop (length win) buf, w + 1)
serve (pos offset) (negsuc size) buf w = (pos 0, err (external 1), buf, w)
serve (negsuc offset) size buf w = (pos 0, err (external 1), buf, w)

abbrev pub serve_or_fail : Bool → ℤ → ℤ → List ℕ → ℕ → ℤ × Result (Unit {0}) × List ℕ × ℕ
serve_or_fail true offset size buf w = (pos 0, err (external 9), buf, w + 1)
serve_or_fail false offset size buf w = serve offset size buf w

abbrev pub set_mtime : Option Time → Attr → Attr
set_mtime none attr = attr
set_mtime (some t) attr = record attr { mtime = unix_u64 t; mtimensec = nanosecond t }

abbrev pub server : Env
server = record {
  World = ℕ;
  now = λ w. (w, w + 1);
  ctx_err = λ w. none;
  read = λ a. serve_or_fail (nat_beq a 9);
  get_meta = λ a w. (err (external 2), w);
  new_adapter = λ p config w. (if nat_beq p 0 then err (external 3) else ok p, w);
  getuid = 1000;
  getgid = 1000;
  set_times = λ a m c. set_mtime m;
}

take-length_append : (xs ys : List ℕ) → take (length xs) (xs ++ ys) ≡ xs
take-length_append [] ys = refl
take-length_append (x ∷ xs) ys = ap (λ l. x ∷ l) (take-length_append xs ys)

served-length : (offset size : ℕ) (buf : List ℕ) → length (served offset size buf) ≤ length buf
served-length offset size buf =
    omega (arith, length-take (length buf) (window served_file offset size))

same_length :
    (win buf : List ℕ)
    → length win ≤ length buf
    → length (win ++ drop (length win) buf) ≡ length buf
same_length win buf h =
    length-append win (drop (length win) buf) ∙ omega (arith, length-drop (length win) buf)

pub server-KeepsBuffer : KeepsBuffer server
server-KeepsBuffer a offset size buf w = keeps (nat_beq a 9) offset size
  where
    keeps : (b : Bool) (o n : ℤ) → length (serve_or_fail b o n buf w).2 ≡ length buf
    keeps true o n = refl
    keeps false (pos o) (pos n) = same_length (served o n buf) buf (served-length o n buf)
    keeps false (pos o) (negsuc n) = refl
    keeps false (negsuc o) n = refl

pub server-calm :
    (offset size : ℕ) (a : ℕ) (buf : List ℕ) (w : ℕ)
    → (server.read a (pos offset) (pos size) buf w).1 ≢ panics
server-calm offset size a buf w = calm (nat_beq a 9)
  where
    calm : (b : Bool) → (serve_or_fail b (pos offset) (pos size) buf w).1 ≢ panics
    calm true e = cc
    calm false e = cc

pub server-Serves : (a : ℕ) → Serves server served_file a
server-Serves a offset size buf w bounded room success = serves (nat_beq a 9) success
  where
    serves :
        (b : Bool)
        → (serve_or_fail b (pos offset) (pos size) buf w).1 ≡ ok tt
        → ServesRead served_file offset size
            (serve_or_fail b (pos offset) (pos size) buf w).0
            buf
            (serve_or_fail b (pos offset) (pos size) buf w).2
    serves true e = absurd (cc e)
    serves false e =
        let win = served offset size buf in
        let short : length (window served_file offset size) ≤ size =
          omega (arith, length-take size (drop offset served_file)) in
        record {
          bytes_read = length win;
          count_eq = refl;
          same_length = same_length win buf (served-length offset size buf);
          fits = omega (
            arith,
            same_length win buf (served-length offset size buf),
            served-length offset size buf,
          );
          front =
              take-length_append win (drop (length win) buf)
              ∙ take_all (length buf) (window served_file offset size) (omega (arith, short));
        }
