-- ===== src/Process/Privsock/Carries.antt =====
-- What one end of a socket pair sends is what the other end gets.
use cos_ftp_v.Base.{
  ℕ, ◌%◌, ◌≤◌, ◌<◌, ◌≡◌, refl, sym, ap, ◌∙◌, true, some, [], ◌∷◌, ◌++◌, append-nil, append_assoc,
  arith, Bytes, uint_mod, ltb, if◌then◌else◌, lt→ltb, le→ltb, length, Outcome, ok, ◌>>=◌,
}
use cos_ftp_v.Str.Edit.{is_empty}
use cos_ftp_v.Process.Privsock.{
  octet, Wire, octets, Sock, int_bytes, int_of, privsock_maxstr, read_loop, taken, read_all,
  write_all, str_netfd_write, priv_sock_send_cmd, priv_sock_send_int, priv_sock_send_str, one_byte,
  priv_sock_get_cmd, priv_sock_get_int, priv_sock_get_str,
}

-- Where writes are taken, `f` sends `w` behind what was sent.
abbrev pub Sends : (Sock → Outcome Sock) → Wire → Type 0
Sends f w = (k : Sock) → k.writable ≡ true → f k ≡ ok (record k { sent = k.sent ++ w })

-- From `w`, whatever follows, `g` gets `a` and takes no more.
abbrev pub Gets {ℓ} : {A : Type ℓ} → (Sock → Outcome (A × Sock)) → Wire → A → Type ℓ
Gets g w a =
    (k : Sock) (rest : Wire)
    → g (record k { arriving = w ++ rest }) ≡ ok (a, record k { arriving = rest })

pub Sends-then :
    (f g : Sock → Outcome Sock) (v w : Wire)
    → Sends f v
    → Sends g w
    → Sends (λ k. f k >>= g) (v ++ w)
Sends-then f g v w h k s up = rw (h s up) (
    k (record s { sent = s.sent ++ v }) up
    ∙ ap (λ x. ok (record s { sent = x })) (append_assoc s.sent v w))

pub Gets-then {ℓ κ} :
    {A : Type ℓ} {B : Type κ} (f : Sock → Outcome (A × Sock)) (g : A × Sock → Outcome (B × Sock))
    (v w : Wire) (a : A) (b : B)
    → Gets f v a
    → Gets (λ k. g (a, k)) w b
    → Gets (λ k. f k >>= g) (v ++ w) b
Gets-then f g v w a b h l k rest = rw (append_assoc v w rest, h k (w ++ rest)) (l k rest)

read_loop-octets : (s : Bytes) (w : Wire) → read_loop (length s) (octets s ++ w) ≡ some (s, w)
unfolding read_loop
read_loop-octets [] w = refl
read_loop-octets (c ∷ s) w = rw (read_loop-octets s w) refl

read_all-Gets : (s : Bytes) → Gets (read_all (length s)) (octets s) s
unfolding read_all
read_all-Gets s k rest =
    ap (taken (record k { arriving = octets s ++ rest })) (read_loop-octets s rest)

pub send_cmd-Sends : (cmd : ℕ) → Sends (priv_sock_send_cmd cmd) (octet cmd ∷ [])
unfolding priv_sock_send_cmd write_all
send_cmd-Sends cmd k up = rw up refl

pub get_cmd-Gets : (cmd : ℕ) → Gets priv_sock_get_cmd (octet cmd ∷ []) cmd
unfolding priv_sock_get_cmd one_byte
get_cmd-Gets cmd k rest = ap (λ o. o >>= one_byte) (read_all-Gets (cmd ∷ []) k rest)

pub send_int-Sends : (n : ℕ) → Sends (priv_sock_send_int n) (octets (int_bytes n))
unfolding priv_sock_send_int write_all
send_int-Sends n k up = rw up refl

int_of-int_bytes : (n : ℕ) → n < uint_mod → int_of (int_bytes n) ≡ n
unfolding int_of
int_of-int_bytes n h = omega arith

pub get_int-Gets : (n : ℕ) → n < uint_mod → Gets priv_sock_get_int (octets (int_bytes n)) n
unfolding priv_sock_get_int
get_int-Gets n h k rest =
    ap (λ o. o >>= (λ r. ok (int_of r.0, r.1))) (read_all-Gets (int_bytes n) k rest)
    ∙ ap (λ x. ok (x, record k { arriving = rest })) (int_of-int_bytes n h)

abbrev pub str_wire : Bytes → Wire
str_wire s = octets (int_bytes (length s)) ++ octets s

pub send_str-Sends :
    (s : Bytes) → length s ≤ privsock_maxstr → Sends (priv_sock_send_str s) (str_wire s)
unfolding priv_sock_send_str str_netfd_write is_empty
send_str-Sends [] h k up =
    rw (send_int-Sends 0 k up)
      (ap (λ w. ok (record k { sent = k.sent ++ w })) (sym (append-nil (octets (int_bytes 0)))))
send_str-Sends (c ∷ s) h k up =
    let small : length (c ∷ s) % uint_mod ≡ length (c ∷ s) = omega arith in
    rw (small, send_int-Sends (length (c ∷ s)) k up, up)
      (ap (λ w. ok (record { arriving = k.arriving; sent = w; writable = true }))
        (append_assoc k.sent (octets (int_bytes (length (c ∷ s)))) (octets (c ∷ s))))

pub get_str-Gets : (s : Bytes) → length s ≤ privsock_maxstr → Gets priv_sock_get_str (str_wire s) s
unfolding priv_sock_get_str
get_str-Gets s h k rest =
    rw
      (
        append_assoc (octets (int_bytes (length s))) (octets s) rest,
        get_int-Gets (length s) (omega arith) k (octets s ++ rest),
        le→ltb privsock_maxstr (length s) h,
      )
      (by_length s)
  where
    by_length :
        (s : Bytes)
        → (if ltb 0 (length s)
            then read_all (length s) (record k { arriving = octets s ++ rest })
            else ok ([], record k { arriving = octets s ++ rest }))
          ≡ ok (s, record k { arriving = rest })
    by_length [] = refl
    by_length (c ∷ s) = rw (lt→ltb 0 (length (c ∷ s)) (omega arith)) (read_all-Gets (c ∷ s) k rest)
