-- ===== src/Examples.antt =====
-- Runs of the definitions on concrete inputs, and the theorems at such inputs.
use cos_ftp_v.Base.{
  ℕ, ◌%◌, ◌≡◌, refl, ap, ◌∙◌, ◌≢◌, inl, inr, true, false, none, some, List, [], ◌∷◌, ◌++◌, arith,
  Bytes, codes, leb, if◌then◌else◌, Bool-cases, replicate, length-replicate, any_of, ok, Ends,
  Returns,
}
use cos_ftp_v.Str.Buf.{
  Mystr, init_mystr, Allocator, private_str_alloc_memchunk, private_str_append_memchunk,
}
use cos_ftp_v.Str.Buf.Room.{Holds, null, held, IsSized, NoRoom}
use cos_ftp_v.Str.Buf.Refines.{Leaves, alloc_memchunk-Represents, append_memchunk-Represents}
use cos_ftp_v.Str.Compare.{str_equal}
use cos_ftp_v.Str.Locate.{
  str_locate_text, str_locate_text_reverse, str_locate_chars, str_locate_str, c_str, starts_with,
}
use cos_ftp_v.Str.Locate.First.{IsFirst, str_locate_text-IsFirst}
use cos_ftp_v.Str.Locate.Last.{IsLast, str_locate_text_reverse-IsLast}
use cos_ftp_v.Str.Split.{
  str_left, str_mid_to_end, str_split_text, str_split_text_reverse, str_split_char,
}
use cos_ftp_v.Str.Split.Parts.{
  AroundFirst, AroundLast, str_split_text-AroundFirst, str_split_text_reverse-AroundLast,
}
use cos_ftp_v.Str.Edit.{is_empty, str_replace_text, str_replace_char, str_upper}
use cos_ftp_v.Str.Chars.{vsf_sysutil_toupper}
use cos_ftp_v.Str.Edit.Replace.{str_replace_text-replaced}
use cos_ftp_v.Str.Lines.{str_contains_line}
use cos_ftp_v.Str.Lines.Each.{str_contains_line-any}
use cos_ftp_v.Ascii.{vsf_ascii_bin_to_ascii, not_at_lf}
use cos_ftp_v.Ascii.Download.{bin_to_ascii-append, LinesEnd, bin_to_ascii-LinesEnd}
use cos_ftp_v.Ascii.Upload.{received, without_cr, received-without_cr, received-bin_to_ascii}
use cos_ftp_v.SysUtil.Numbers.{vsf_sysutil_filesize_t_to_str, vsf_sysutil_a_to_filesize_t}
use cos_ftp_v.SysUtil.Numbers.Parse.{a_to_filesize_t-filesize_t_to_str}
use cos_ftp_v.Control.Netstr.{Socket, line, str_netfd_alloc}
use cos_ftp_v.Control.Netstr.Reads.{Reads, str_netfd_alloc-Reads}
use cos_ftp_v.Control.Reply.{wire}
use cos_ftp_v.Control.Reply.OneLine.{OneLine, wire-OneLine}
use cos_ftp_v.Control.Command.{Command, vsf_cmdio_get_cmd_and_arg}
use cos_ftp_v.Control.Command.Clean.{IsWellFormed, get_cmd_and_arg-IsWellFormed}
use cos_ftp_v.Hash.{unlink, Chain, find_in, Hash, hash_alloc, hash_add_entry, hash_free_entry}
use cos_ftp_v.Hash.Finds.{
  IsValid, find, chain_at, Updated, hash_alloc-IsValid, hash_add_entry-Updated,
  hash_free_entry-Updated,
}
use cos_ftp_v.Standalone.{pid_ops, parent, handle_sigchld, accepted, Listener, initial, hash_pid}
use cos_ftp_v.Standalone.Accounts.{
  Accounts, handle_sigchld-Accounts, accepted-After, initial-Accounts,
}
use cos_ftp_v.Access.{vsf_access_check_file, with_slash, vsf_access_session_check_file}
use cos_ftp_v.Listing.{vsf_filename_passes_filter}

-- An allocator that gives blocks of zero bytes, of at most 64 bytes.
abbrev small_malloc : Allocator
small_malloc n = if leb n 64 then some (replicate n 0) else none

some_eq : (a b : Bytes) → some a ≡ some b → a ≡ b
some_eq a b h = cc

some-none : (a : Bytes) → none ≡ some a → ⊥
some-none a h = cc

small_malloc-IsSized : IsSized small_malloc
small_malloc-IsSized n block h = elim (Bool-cases (leb n 64)) [
  | inl fits ↦ rw (← some_eq _ _ (rw fits at h)) (length-replicate n 0)
  | inr large ↦ absurd (some-none _ (rw large at h))
]

-- The string "ab" in a block of three bytes.
abbrev ab_str : Mystr
ab_str = record { p_buf = some (97 ∷ 98 ∷ 0 ∷ []); len = 2; alloc_bytes = 3 }

ab_str-Holds : Holds ab_str (codes "ab")
ab_str-Holds = record { rest = []; buffer = refl; len_is = refl; size = refl; small = omega arith }

alloc_memchunk-Represents_example :
    Ends
      (NoRoom small_malloc 3)
      (λ q. Holds q (codes "xy"))
      (private_str_alloc_memchunk small_malloc init_mystr (codes "xy"))
alloc_memchunk-Represents_example =
    alloc_memchunk-Represents small_malloc small_malloc-IsSized init_mystr [] (codes "xy")
      (null refl refl refl refl) (omega arith)

append_memchunk-Represents_example :
    Leaves small_malloc 5
      (codes "abxy")
      (private_str_append_memchunk small_malloc ab_str (codes "xy"))
append_memchunk-Represents_example =
    append_memchunk-Represents small_malloc small_malloc-IsSized ab_str (codes "ab") (codes "xy")
      (held ab_str-Holds) (omega arith)

nonempty : (c : ℕ) (s : Bytes) → c ∷ s ≢ []
nonempty c s = λ e. cc

str_locate_text-IsFirst_example :
    IsFirst (codes "an") (codes "banana") (str_locate_text (codes "banana") (codes "an"))
str_locate_text-IsFirst_example =
    str_locate_text-IsFirst (codes "banana") (codes "an") (nonempty 97 (110 ∷ []))

str_locate_text_reverse-IsLast_example :
    IsLast (codes "an") (codes "banana") (str_locate_text_reverse (codes "banana") (codes "an"))
str_locate_text_reverse-IsLast_example =
    str_locate_text_reverse-IsLast (codes "banana") (codes "an") (nonempty 97 (110 ∷ []))

str_split_text-AroundFirst_example :
    Returns
      (AroundFirst (codes "banana") (codes "an"))
      (str_split_text (codes "banana") (codes "an"))
str_split_text-AroundFirst_example =
    str_split_text-AroundFirst (codes "banana") (codes "an") (nonempty 97 (110 ∷ []))

str_split_text_reverse-AroundLast_example :
    Returns
      (AroundLast (codes "banana") (codes "an"))
      (str_split_text_reverse (codes "banana") (codes "an"))
str_split_text_reverse-AroundLast_example =
    str_split_text_reverse-AroundLast (codes "banana") (codes "an") (nonempty 97 (110 ∷ []))

str_replace_text-replaced_example :
    str_replace_text (codes "a%b%") (codes "%") (codes "%%") ≡ ok (some (codes "a%%b%%"))
str_replace_text-replaced_example = str_replace_text-replaced (codes "a%b%") b'%' (codes "%%")

str_contains_line-any_example :
    str_contains_line (codes "root\nftp\n") (codes "ftp")
    ≡ ok (some (any_of (λ l. str_equal l (codes "ftp")) (codes "root" ∷ codes "ftp" ∷ [])))
str_contains_line-any_example = str_contains_line-any (codes "root\nftp\n") (codes "ftp")

-- A bare line feed, and one behind a carriage return at the end of a block.
bin_to_ascii-append_example :
    let r = vsf_ascii_bin_to_ascii (codes "a\nb\r") false in
    let q = vsf_ascii_bin_to_ascii (codes "\nc") r.last_was_cr in
    let whole = vsf_ascii_bin_to_ascii (codes "a\nb\r\nc") false in
    (whole.out ≡ r.out ++ q.out) × (whole.last_was_cr ≡ q.last_was_cr)
bin_to_ascii-append_example = bin_to_ascii-append (codes "a\nb\r") (codes "\nc") false

bin_to_ascii-LinesEnd_example : LinesEnd false (vsf_ascii_bin_to_ascii (codes "a\nb\r\n") false).out
bin_to_ascii-LinesEnd_example = bin_to_ascii-LinesEnd (codes "a\nb\r\n") false

abbrev blocks : List Bytes
blocks = codes "a\r" ∷ codes "\nb\rc" ∷ []

received-without_cr_example : received false blocks ≡ without_cr (codes "a\r\nb\rc")
received-without_cr_example = received-without_cr blocks (nonempty 97 _, (nonempty 10 _, tt)) false

received-bin_to_ascii_example :
    received false ((vsf_ascii_bin_to_ascii (codes "a\nb\rc") false).out ∷ []) ≡ codes "a\nb\rc"
unfolding not_at_lf
received-bin_to_ascii_example =
    received-bin_to_ascii (codes "a\nb\rc")
      (λ e. absurd (omega arith), (λ e. refl, (λ e. refl, (λ e. refl, (λ e. refl, tt)))))

a_to_filesize_t-filesize_t_to_str_example :
    vsf_sysutil_a_to_filesize_t (vsf_sysutil_filesize_t_to_str 4096) ≡ 4096
a_to_filesize_t-filesize_t_to_str_example = a_to_filesize_t-filesize_t_to_str 4096 (omega arith)

-- A command that arrives in two pieces, with the start of the next one behind it.
abbrev arrivals : Socket
arrivals = codes "US" ∷ codes "ER\nPA" ∷ []

str_netfd_alloc-Reads_example :
    Reads b'\n'
      (codes "USER")
      (codes "PA")
      (str_netfd_alloc (λ s. false) (λ s. false) b'\n' 4096 arrivals)
str_netfd_alloc-Reads_example =
    str_netfd_alloc-Reads (λ s. false) (λ s. false) (λ s. refl, λ s. refl) b'\n' 4096 (codes "USER")
      (codes "PA") arrivals (nonempty 85 _, (nonempty 69 _, tt)) (refl, (refl, (refl, (refl, tt))))
      refl (omega arith)

wire-OneLine_example : Returns OneLine (wire 550 b' ' (codes "no\n230 yes"))
wire-OneLine_example = wire-OneLine 550 b' ' (codes "no\n230 yes") (λ e. absurd (omega arith))

get_cmd_and_arg-IsWellFormed_example :
    Returns IsWellFormed (vsf_cmdio_get_cmd_and_arg true false (line (codes "retr a\r")))
get_cmd_and_arg-IsWellFormed_example = get_cmd_and_arg-IsWellFormed true (codes "retr a\r")

abbrev pass_command : Command
pass_command = record {
  cmd = codes "PASS";
  arg = codes "secret";
  logged = some (codes "PASS <password>");
}

pass_command_read :
    vsf_cmdio_get_cmd_and_arg true false (line (codes "pass secret\r")) ≡ ok pass_command
unfolding vsf_cmdio_get_cmd_and_arg str_replace_char str_split_char str_locate_text str_upper
    str_equal vsf_sysutil_toupper
pass_command_read = refl

-- Tables with process numbers as keys, as the listener keeps them.
abbrev no_pids : Hash ℕ ℕ
no_pids = hash_alloc 256

no_pids-IsValid : IsValid pid_ops no_pids
no_pids-IsValid = (hash_alloc-IsValid pid_ops 256 (omega arith)).0

hash_add_entry-Updated_example :
    Returns (Updated pid_ops no_pids 300 (some 7)) (hash_add_entry pid_ops no_pids 300 7)
hash_add_entry-Updated_example =
    hash_add_entry-Updated pid_ops no_pids 300 7 no_pids-IsValid
      ((hash_alloc-IsValid pid_ops 256 (omega arith)).1 300)

-- One bucket with two processes on its chain.
abbrev two_pids : Hash ℕ ℕ
two_pids = record { buckets = 1; p_nodes = ((300, 7) ∷ (44, 9) ∷ []) ∷ [] }

two_pids-IsValid : IsValid pid_ops two_pids
unfolding find_in
two_pids-IsValid = record {
  some_buckets = omega arith;
  sized = refl;
  distinct = ((refl, (refl, tt)), tt);
}

hash_free_entry-Updated_example :
    Returns (Updated pid_ops two_pids 44 none) (hash_free_entry pid_ops two_pids 44)
unfolding find find_in hash_pid
hash_free_entry-Updated_example =
    hash_free_entry-Updated pid_ops two_pids 44 9 two_pids-IsValid refl

-- The listener with addresses that are numbers, hashed as process numbers are.
abbrev one_child : Chain ℕ ℕ
one_child = (300, 7) ∷ []

accepted-After_example :
    Returns
      (λ r. Accounts pid_ops one_child r.0 × (r.1.num_children ≡ 1) × (r.1.num_this_ip ≡ 1))
      (accepted pid_ops initial 7 (parent 300))
unfolding find_in
accepted-After_example =
    accepted-After pid_ops [] initial 7 (parent 300) (initial-Accounts pid_ops) (omega arith) refl

-- Two children of one address, and one of them is reaped.
abbrev two_children : Chain ℕ ℕ
two_children = (44, 7) ∷ (300, 7) ∷ []

abbrev busy : Listener ℕ
busy = record {
  s_children = 2;
  s_p_ip_count_hash = record { buckets = 1; p_nodes = ((7, 2) ∷ []) ∷ [] };
  s_p_pid_ip_hash = record { buckets = 1; p_nodes = two_children ∷ [] };
}

one_bucket :
    (chain : Chain ℕ ℕ) (q : ℕ)
    → find pid_ops (record { buckets = 1; p_nodes = chain ∷ [] }) q ≡ find_in pid_ops q chain
unfolding find hash_pid
one_bucket chain q =
    let first : q % 1 ≡ 0 = omega arith in
    ap (λ i. find_in pid_ops q (chain_at pid_ops (chain ∷ []) i)) first

busy-Accounts : Accounts pid_ops two_children busy
unfolding find_in
busy-Accounts = record {
  no_twice = (refl, (refl, tt));
  few = omega arith;
  total = refl;
  per_ip = record {
    valid = record { some_buckets = omega arith; sized = refl; distinct = ((refl, tt), tt) };
    counts = λ q. one_bucket ((7, 2) ∷ []) q ∙ ground arith;
  };
  pids_valid = record {
    some_buckets = omega arith;
    sized = refl;
    distinct = ((refl, (refl, tt)), tt);
  };
  pids = λ q. one_bucket two_children q;
}

handle_sigchld-Accounts_example :
    Returns (Accounts pid_ops ((44, 7) ∷ [])) (handle_sigchld pid_ops busy (300 ∷ []))
unfolding find_in unlink
handle_sigchld-Accounts_example =
    handle_sigchld-Accounts pid_ops two_children busy (300 ∷ []) busy-Accounts ((7, refl), tt)

-- A sibling whose name only starts like the root is refused.
sibling :
    vsf_access_session_check_file none (codes "/home/ab") (codes "/home/a") (codes "f") ≡ ok false
unfolding vsf_access_session_check_file with_slash starts_with is_empty vsf_access_check_file
sibling = refl

matches_some :
    (vsf_filename_passes_filter (codes "a.c") (codes "*.c") 0 ≡ ok (true, 2))
    × (vsf_filename_passes_filter (codes "a.c.c") (codes "*.c") 0 ≡ ok (false, 2))
unfolding vsf_filename_passes_filter str_locate_chars str_locate_str str_locate_text c_str
    starts_with str_left str_mid_to_end is_empty
matches_some = (refl, refl)
