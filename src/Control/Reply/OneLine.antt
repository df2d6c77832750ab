-- ===== src/Control/Reply/OneLine.antt =====
-- The line that a reply is sent as.
use cos_ftp_v.Base.{
  ℕ, ◌≡◌, refl, ap, ◌∙◌, ◌≢◌, inl, inr, ◌&&◌, [], ◌∷◌, ◌++◌, arith, Bytes, ◌==◌, if◌then◌else◌,
  ==_iff, Bool-cases, All, All-append, ok, Returns,
}
use cos_ftp_v.SysUtil.Numbers.{vsf_sysutil_ulong_to_str}
use cos_ftp_v.SysUtil.Numbers.Print.{IsDigit, digits_onto-IsDigit}
use cos_ftp_v.Str.Edit.{str_replace_char}
use cos_ftp_v.Str.Edit.Replace.{replaced, str_replace_text-replaced}
use cos_ftp_v.Control.Reply.{finished, wire}

abbrev pub NotLf : ℕ → Type 0
NotLf c = c ≢ 10

-- The body of a reply: Telnet's byte 255 is doubled, and line feeds are zero bytes.
abbrev pub body : Bytes → Bytes
body s = str_replace_char (replaced 255 (255 ∷ 255 ∷ []) s) b'\n' 0

pub wire-body :
    (status sep : ℕ) (s : Bytes)
    → wire status sep s
      ≡ ok ((vsf_sysutil_ulong_to_str status ++ sep ∷ []) ++ body s ++ 13 ∷ 10 ∷ [])
unfolding wire finished
wire-body status sep s = rw (str_replace_text-replaced s 255 (255 ∷ 255 ∷ []), finished) refl

NotLf-replace_char : (s : Bytes) → All NotLf (str_replace_char s b'\n' 0)
unfolding str_replace_char
NotLf-replace_char [] = tt
NotLf-replace_char (c ∷ s) = (ground arith, NotLf-replace_char s)

NotLf-digits : (n : ℕ) → All NotLf (vsf_sysutil_ulong_to_str n)
unfolding vsf_sysutil_ulong_to_str
NotLf-digits n = weaken _ (digits_onto-IsDigit 10 (omega arith) 22 n [] tt)
  where
    weaken : (s : Bytes) → All (IsDigit 10) s → All NotLf s
    weaken [] h = tt
    weaken (c ∷ s) h = (omega arith, weaken s h.1)

-- `front` holds no line feed, and the line ends behind it.
abbrev pub OneLine : Bytes → Type 0
OneLine bytes = (front : Bytes) × (bytes ≡ front ++ 13 ∷ 10 ∷ []) × All NotLf front

-- With a separator other than a line feed, making what is sent for a reply returns one line, whatever
-- the text: a carriage return and a line feed end it, and no other line feed is in it.
pub wire-OneLine : (status sep : ℕ) (s : Bytes) → sep ≢ 10 → Returns OneLine (wire status sep s)
wire-OneLine status sep s h = rw (wire-body status sep s) (
  (vsf_sysutil_ulong_to_str status ++ sep ∷ []) ++ body s,
  refl,
  All-append NotLf (vsf_sysutil_ulong_to_str status ++ sep ∷ []) (body s)
      (All-append NotLf (vsf_sysutil_ulong_to_str status) (sep ∷ []) (NotLf-digits status) (h, tt))
      (NotLf-replace_char (replaced 255 (255 ∷ 255 ∷ []) s)),
)

-- A Telnet client reads 255 255 as one byte 255, and a zero byte of a reply stands for a line feed.
abbrev pub unescape : Bytes → Bytes
unescape [] = []
unescape (c ∷ []) = (if c == 0 then 10 else c) ∷ []
unescape (c ∷ d ∷ s) =
    let one = (if c == 0 then 10 else c) ∷ unescape (d ∷ s) in
    if c == 255 && d == 255 then 255 ∷ unescape s else one

unescape_plain :
    (x : ℕ) (t : Bytes) → x ≢ 255 → unescape (x ∷ t) ≡ (if x == 0 then 10 else x) ∷ unescape t
unescape_plain x [] h = refl
unescape_plain x (d ∷ t) h = ground arith

-- A client that undoes the escapes of a reply reads the text that the server meant, if that text
-- has no zero byte.
pub unescape-body : (s : Bytes) → All (λ c. c ≢ 0) s → unescape (body s) ≡ s
unfolding str_replace_char
unescape-body [] h = refl
unescape-body (c ∷ s) h = elim (Bool-cases (c == 255)) [
  | inl iac ↦ rw iac (rw ((==_iff c 255).0 iac) (ap (◌∷◌ 255) (unescape-body s h.1)))
  | inr other ↦ rw other (
      unescape_plain (if c == 10 then 0 else c) _ (ground arith)
      ∙ ap₂' (same c h.0) (unescape-body s h.1))
]
  where
    same :
        (c : ℕ)
        → c ≢ 0
        → (if (if c == 10 then 0 else c) == 0 then 10 else (if c == 10 then 0 else c)) ≡ c
    same c h = ground arith

    ap₂' : {x y : ℕ} {a b : Bytes} → x ≡ y → a ≡ b → x ∷ a ≡ y ∷ b
    ap₂' p q = cc
