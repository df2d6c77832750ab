-- ===== src/Str/Buf.antt =====
-- src/str.c and src/str.h: `struct mystr` with its buffer, and the functions that allocate or move
-- it. The heap blocks are lists of bytes, and an access outside its block is a `fault`.
pub mod Room
pub mod Refines
use cos_ftp_v.Base.{
  ℕ, zero, suc, ◌+◌, ◌-◌, ◌*◌, ◌/◌, ◌%◌, ◌^◌, ◌≤◌, ◌<◌, min, max, ◌≡◌, refl, sym, ap, ◌∙◌, subst,
  ◌≢◌, ◌↔◌, ◌⊎◌, inl, inr, Bool, true, false, not, ◌&&◌, ◌||◌, Option, none, some, List, [], ◌∷◌,
  ◌++◌, map, append-nil, append_assoc, arith, Bytes, codes, uint_mod, ltb, leb, ◌==◌, if◌then◌else◌,
  ltb→lt, lt→ltb, le→ltb, lt→leb, leb→le, le→leb, ==_iff, ==_refl, Bool-cases, Option-cases, tests,
  length, get_elem?, set, take, drop, replicate, length-append, length-take, length-drop,
  length-replicate, length-set, take-append-drop, take-length_append, drop-length_append,
  take-length, take-all, drop_split, drop_add, any_of, All, All-append, All-left, All-right, all_of,
  Outcome, ok, bug, die, exit, fault, ◌>>=◌, >>=-eq-ok, Ends, Returns, Ends-bind, Ends-mono,
  Returns-ok,
}

-- A block of 0 bytes does not exist: `p_buf` is null, or holds `alloc_bytes` bytes.
pub record Mystr : Type 0 where
  pub p_buf : Option Bytes
  pub len : ℕ
  pub alloc_bytes : ℕ

-- INIT_MYSTR
abbrev pub init_mystr : Mystr
init_mystr = record { p_buf = none; len = 0; alloc_bytes = 0 }

abbrev pub int_max : ℕ
int_max = 2147483647

-- `malloc` of the C library: a block with any content, or null.
abbrev pub Allocator : Type 0
Allocator = ℕ → Option Bytes

-- A write of `data` at the offset `off` of a block.
pub poke : ℕ → Bytes → Bytes → Outcome Bytes
poke off data' block =
    if leb (off + length data') (length block)
    then ok (take off block ++ (data' ++ drop (off + length data') block))
    else fault

pub vsf_sysutil_memcpy : ℕ → Bytes → Bytes → Outcome Bytes
vsf_sysutil_memcpy off src block =
    if length src == 0
    then ok block
    else if ltb int_max (length src)
    then die
    else poke off src block

-- A write through `p_buf`.
pub through : Option Bytes → (Bytes → Outcome Bytes) → Outcome Bytes
through none f = fault
through (some block) f = f block

or_die : Option Bytes → Outcome Bytes
or_die none = die
or_die (some block) = ok block

pub vsf_sysutil_malloc : Allocator → ℕ → Outcome Bytes
vsf_sysutil_malloc malloc size = if size == 0 || ltb int_max size then bug else or_die (malloc size)

kept : Option Bytes → ℕ → Bytes → Bytes
kept none size block = block
kept (some old) size block = take size old ++ drop (length old) block

-- `realloc` keeps what fits of the old block.
pub vsf_sysutil_realloc : Allocator → Option Bytes → ℕ → Outcome Bytes
vsf_sysutil_realloc malloc old size =
    if size == 0 || ltb int_max size
    then bug
    else or_die (malloc size) >>= (λ block. ok (kept old size block))

pub str_free : Mystr → Mystr
str_free p = init_mystr

-- `str_free` and `s_setbuf` make room, with the content lost.
pub alloc_room : Allocator → Mystr → ℕ → Outcome Mystr
alloc_room malloc p buf_needed =
    if ltb p.alloc_bytes buf_needed
    then (vsf_sysutil_malloc malloc buf_needed
        >>= (λ block. ok (record (str_free p) { p_buf = some block; alloc_bytes = buf_needed })))
    else ok p

-- `vsf_sysutil_realloc` makes room, with the content kept.
pub realloc_room : Allocator → Mystr → ℕ → Outcome Mystr
realloc_room malloc p buf_needed =
    if ltb p.alloc_bytes buf_needed
    then (vsf_sysutil_realloc malloc p.p_buf buf_needed
        >>= (λ block. ok (record p { p_buf = some block; alloc_bytes = buf_needed })))
    else ok p

-- The copy, the final zero and the new length. The caller's pointer and length are one list.
pub put_memchunk : ℕ → Bytes → Mystr → Outcome Mystr
put_memchunk off src p = do
  copied ← through p.p_buf (vsf_sysutil_memcpy off src)
  ended ← poke (off + length src) (0 ∷ []) copied
  ok (record p { p_buf = some ended; len = (off + length src) % uint_mod })

pub private_str_alloc_memchunk : Allocator → Mystr → Bytes → Outcome Mystr
private_str_alloc_memchunk malloc p src =
    let buf_needed = (length src + 1) % uint_mod in
    if ltb buf_needed (length src)
    then bug
    else (alloc_room malloc p buf_needed >>= put_memchunk 0 src)

pub private_str_append_memchunk : Allocator → Mystr → Bytes → Outcome Mystr
private_str_append_memchunk malloc p src =
    let sum = (length src + p.len) % uint_mod in
    let buf_needed = (sum + 1) % uint_mod in
    if ltb sum (length src)
    then bug
    else if ltb buf_needed sum
    then bug
    else (realloc_room malloc p buf_needed >>= put_memchunk p.len src)

getbuf_of : Allocator → Mystr → Option Bytes → Outcome Mystr
getbuf_of malloc p none =
    if not (p.len == 0) || not (p.alloc_bytes == 0)
    then bug
    else private_str_alloc_memchunk malloc p []
getbuf_of malloc p (some block) = ok p

-- The string afterwards; the pointer returned is its `p_buf`.
pub str_getbuf : Allocator → Mystr → Outcome Mystr
str_getbuf malloc p = getbuf_of malloc p p.p_buf

pub str_trunc : Mystr → ℕ → Outcome Mystr
str_trunc p trunc_len =
    if leb p.alloc_bytes trunc_len
    then bug
    else (through p.p_buf (poke trunc_len (0 ∷ []))
        >>= (λ ended. ok (record p { p_buf = some ended; len = trunc_len })))

pub str_empty : Allocator → Mystr → Outcome Mystr
str_empty malloc p = do p' ← str_getbuf malloc p; str_trunc p' 0

pub str_reserve : Allocator → Mystr → ℕ → Outcome Mystr
str_reserve malloc p wanted =
    let res_len = (wanted + 1) % uint_mod in
    if res_len == 0 then bug else (do
      p' ← realloc_room malloc p res_len
      ended ← through p'.p_buf (poke (res_len - 1) (0 ∷ []))
      ok (record p' { p_buf = some ended }))
