-- ===== src/Commands/Convert.antt =====
-- `cos_conv_gbk_2_utf` of src/cosswitch.cpp, on the argument of every command, with src/encode.cpp.
use cos_ftp_v.Base.{
  ℕ, zero, suc, ◌+◌, ◌-◌, ◌*◌, ◌/◌, ◌%◌, ◌<◌, ◌≡◌, refl, ap, inl, inr, Bool, true, not, ◌&&◌, ◌||◌,
  List, [], ◌∷◌, ◌++◌, arith, Bytes, codes, ltb, leb, ◌==◌, if◌then◌else◌, ltb→lt, Bool-cases,
  if_elim, length, drop, length-drop, All,
}
use cos_ftp_v.Str.Edit.{is_empty}
use cos_ftp_v.Str.Locate.{c_str}
use cos_ftp_v.Commands.{Act, log_line}
use cos_ftp_v.Commands.Data.{CLibrary}

-- Where `IsUtf8` is in a text: how many more bytes the character under way has, of how many behind
-- its first (`dwCount`), and the two counters.
pub record Scan : Type 0 where
  pub pending : ℕ
  pub count : ℕ
  pub utf8_len : ℕ
  pub unknown_len : ℕ

-- The bytes that follow the first of a character.
abbrev pub count_of : ℕ → ℕ
count_of c =
    if leb 252 c
    then 5
    else if leb 248 c
    then 4
    else if leb 240 c
    then 3
    else if leb 224 c
    then 2
    else 1

-- A byte that no character is under way at, with `left` bytes behind it.
unfoldable pub scan_first : Scan → ℕ → ℕ → Scan
scan_first k c left =
    if ltb c 127
    then k
    else if ltb c 192 || (ltb 253 c || ltb (1 + left) (count_of c))
    then record k { unknown_len = k.unknown_len + 1 }
    else record k { pending = count_of c; count = count_of c }

-- The loop over the bytes of a character, one round.
unfoldable pub scan_byte : Scan → ℕ → ℕ → Scan
unfolding scan_first
scan_byte k c left = elim k.pending [
  | zero ↦ scan_first k c left
  | suc n ↦
      if ltb c 128 || ltb 191 c
      then scan_first (record k { pending = 0; unknown_len = k.unknown_len + 2 }) c left
      else record k {
        pending = n;
        utf8_len = if n == 0 then k.utf8_len + (k.count + 1) else k.utf8_len;
      }
]

-- Both loops; the zero byte at the end breaks off a character.
unfoldable pub scan_loop : Scan → Bytes → Scan
unfolding scan_byte
scan_loop k [] =
    if k.pending == 0 then k else record k { pending = 0; unknown_len = k.unknown_len + 2 }
scan_loop k (c ∷ s) = scan_loop (scan_byte k c (length s)) s

-- `udwUtf8Len >= (udwUnkouwnLen + udwUtf8Len) * 0.9`, which rounds to the same answer.
unfoldable pub is_utf8 : Bytes → Bool
unfolding scan_loop
is_utf8 s =
    let k = scan_loop (record { pending = 0; count = 0; utf8_len = 0; unknown_len = 0 }) s in
    not (is_empty s) && leb (9 * (k.unknown_len + k.utf8_len)) (10 * k.utf8_len)

-- What the calls of `iconv` write, with fuel: a call that fails is made again one byte further on.
unfoldable pub iconv_loop : CLibrary → ℕ → Bytes → ℕ → Bytes
iconv_loop c zero inbuf room = []
iconv_loop c (suc fuel) inbuf room =
    let (failed, used, out) = c.iconv inbuf room in
    let later = iconv_loop c fuel (drop (used + 1) inbuf) (room - length out) in
    if failed && (ltb used (length inbuf) && ltb (length out) room) then out ++ later else out

unfoldable pub code_convert : CLibrary → Bytes → ℕ → Bytes
unfolding iconv_loop
code_convert c inbuf room = iconv_loop c (length inbuf + 1) inbuf room

-- More fuel than there are bytes changes nothing.
iconv_loop-fuel :
    (c : CLibrary) (m n : ℕ) (inbuf : Bytes) (room : ℕ)
    → length inbuf < m
    → length inbuf < n
    → iconv_loop c m inbuf room ≡ iconv_loop c n inbuf room
unfolding iconv_loop
iconv_loop-fuel c zero n inbuf room h k = absurd (omega arith)
iconv_loop-fuel c (suc m) zero inbuf room h k = absurd (omega arith)
iconv_loop-fuel c (suc m) (suc n) inbuf room h k =
    let (failed, used, out) = c.iconv inbuf room in
    elim (Bool-cases (failed && (ltb used (length inbuf) && ltb (length out) room))) [
      | inl e ↦
          let more : used < length inbuf = ltb→lt used (length inbuf) (last_of _ _ _ e) in
          rw e (
            ap (◌++◌ out) (
              iconv_loop-fuel c m n (drop (used + 1) inbuf) (room - length out)
                (omega (arith, length-drop (used + 1) inbuf))
                (omega (arith, length-drop (used + 1) inbuf))))
      | inr e ↦ rw e refl
    ]
  where
    last_of : (a b d : Bool) → (a && (b && d)) ≡ true → b ≡ true
    last_of a b d e = ground (arith, e)

abbrev hex_digit : ℕ → ℕ
hex_digit n = if ltb n 10 then b'0' + n else b'a' + (n - 10)

-- `inner_asc_2_bcd`
unfoldable pub inner_asc_2_bcd : Bytes → Bytes
inner_asc_2_bcd [] = []
inner_asc_2_bcd (c ∷ s) = hex_digit (c / 16) ∷ hex_digit (c % 16) ∷ inner_asc_2_bcd s

-- What it logs, and the argument. `temp` has room for twice the bytes and one more, and is read up to
-- its first zero byte; a text in GBK is at most half as long again in UTF-8, so there is one.
unfoldable pub cos_conv_gbk_2_utf : CLibrary → Bytes → List Act × Bytes
unfolding is_utf8 code_convert inner_asc_2_bcd
cos_conv_gbk_2_utf c arg =
    let temp = c_str (code_convert c arg (length arg * 2 + 1)) in
    if is_empty arg || is_utf8 arg then ([], arg) else (
      log_line ((codes "conv gbk to utf-8, src:" ++ arg) ++ (codes "  dst:" ++ temp))
          ∷ log_line (inner_asc_2_bcd temp)
          ∷ [],
      temp,
    )

-- Nothing but lines of the log comes of it.
pub conv-All :
    (P : Act → Type 0) (c : CLibrary) (arg : Bytes)
    → ((text : Bytes) → P (log_line text))
    → All P (cos_conv_gbk_2_utf c arg).0
unfolding cos_conv_gbk_2_utf
conv-All P c arg h =
    if_elim (λ (r : List Act × Bytes). All P r.0) (is_empty arg || is_utf8 arg) _ _ (λ e. tt)
      (λ e. (h _, (h _, tt)))
