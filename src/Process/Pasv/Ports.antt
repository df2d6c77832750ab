-- ===== src/Process/Pasv/Ports.antt =====
-- Where the parent listens for a data connection.
use cos_ftp_v.Base.{
  ℕ, zero, suc, ◌+◌, ◌-◌, ◌*◌, ◌/◌, ◌≤◌, ◌<◌, ◌≡◌, refl, sym, ap, subst, false, Option, none, some,
  ◌∷◌, arith, lt→ltb, le→leb, ==_refl, if_elim, Outcome, ok, die, Ends,
}
use cos_ftp_v.Process.Pasv.{
  Broker, PortTunables, Errno, no_error, addr_in_use, acces, other_error, close_fd, open_fd,
  is_active, min_port_of, max_port_of, scaled_port, PasvRound, bind_listen, settled, pasv_loop,
  vsf_privop_pasv_listen,
}

-- The port lies in the range, in which no port is reserved, some round had the system bind its
-- socket to the port and listen there, and that socket is the one new one that stays open.
pub record IsListening (t : PortTunables) (rounds : ℕ → PasvRound) (before : Broker) (port : ℕ)
    (after : Broker) : Type 0 where
  pub not_reserved : 1024 ≤ port
  pub above_min :
      1024 < t.tunable_pasv_min_port
      → t.tunable_pasv_min_port ≤ 65535
      → t.tunable_pasv_min_port ≤ port
  pub below_max :
      min_port_of t ≤ t.tunable_pasv_max_port
      → t.tunable_pasv_max_port < 65535
      → port ≤ t.tunable_pasv_max_port
  pub is_port : port < 65536
  pub was_idle : before.pasv_listen_fd ≡ none
  pub bound :
      (i : ℕ) × ((rounds i).bind port ≡ no_error)
      × ((rounds i).listen ≡ no_error)
      × (after ≡ record before {
        pasv_listen_fd = some (rounds i).sock;
        opened = (rounds i).sock ∷ before.opened;
      })

-- Random bytes are bytes.
abbrev pub AreBytes : ℕ × ℕ → Type 0
AreBytes (high, low) = (high < 256) × (low < 256)

ports_fit :
    (t : PortTunables)
    → (1024 ≤ min_port_of t) × (min_port_of t ≤ max_port_of t) × (max_port_of t ≤ 65535)
unfolding min_port_of max_port_of
ports_fit t = ground arith

scaled_fits :
    (x lo hi : ℕ)
    → x < 65536
    → lo ≤ hi
    → (lo ≤ lo + x * (hi - lo + 1) / 65536) × (lo + x * (hi - lo + 1) / 65536 ≤ hi)
scaled_fits x lo hi h k = grind arith

scaled_port-fits :
    (t : PortTunables) (random : ℕ × ℕ)
    → AreBytes random
    → (min_port_of t ≤ scaled_port t random) × (scaled_port t random ≤ max_port_of t)
unfolding scaled_port
scaled_port-fits t (high, low) h =
    scaled_fits (high * 256 + low) (min_port_of t) (max_port_of t) (omega arith) (ports_fit t).1

asked_min :
    (t : PortTunables)
    → 1024 < t.tunable_pasv_min_port
    → t.tunable_pasv_min_port ≤ 65535
    → min_port_of t ≡ t.tunable_pasv_min_port
unfolding min_port_of
asked_min t over under = ground arith

asked_max :
    (t : PortTunables)
    → min_port_of t ≤ t.tunable_pasv_max_port
    → t.tunable_pasv_max_port < 65535
    → max_port_of t ≡ t.tunable_pasv_max_port
unfolding max_port_of
asked_max t over under = rw (le→leb _ _ over, lt→ltb _ _ under) refl

no_errors :
    (bind listen : Errno)
    → bind_listen bind listen ≡ no_error
    → (bind ≡ no_error) × (listen ≡ no_error)
no_errors no_error listen e = (refl, e)
no_errors addr_in_use listen e = absurd cc
no_errors acces listen e = absurd cc
no_errors other_error listen e = absurd cc

found-IsListening :
    (t : PortTunables) (rounds : ℕ → PasvRound) (b : Broker) (i : ℕ)
    → AreBytes (rounds i).random
    → b.pasv_listen_fd ≡ none
    → bind_listen ((rounds i).bind (scaled_port t (rounds i).random)) (rounds i).listen ≡ no_error
    → IsListening t rounds b
        (scaled_port t (rounds i).random)
        (record (open_fd (rounds i).sock b) { pasv_listen_fd = some (rounds i).sock })
found-IsListening t rounds b i h idle e =
    let fits = scaled_port-fits t (rounds i).random h in
    let ranges = ports_fit t in
    let fine = no_errors ((rounds i).bind (scaled_port t (rounds i).random)) (rounds i).listen e in
    record {
      not_reserved = omega (arith, fits.0, ranges.0);
      above_min = λ over under. omega (arith, fits.0, asked_min t over under);
      below_max = λ over under. omega (arith, fits.1, asked_max t over under);
      is_port = omega (arith, fits.1, ranges.2);
      was_idle = idle;
      bound = (i, fine.0, fine.1, refl);
    }

not_active : (o : Option ℕ) → is_active o ≡ false → o ≡ none
not_active none e = refl
not_active (some fd) e = absurd cc

reclosed :
    (s : ℕ) (b : Broker)
    → b.pasv_listen_fd ≡ none
    → record (close_fd s (record (open_fd s b) { pasv_listen_fd = some s })) {
      pasv_listen_fd = none;
    }
      ≡ b
reclosed s b h = rw (==_refl s) (ap (λ o. record b { pasv_listen_fd = o }) (sym h))

pasv_loop-IsListening :
    (t : PortTunables) (rounds : ℕ → PasvRound) (b : Broker) (bind_retries : ℕ)
    → ((i : ℕ) → AreBytes (rounds i).random)
    → b.pasv_listen_fd ≡ none
    → Ends Unit (λ r. IsListening t rounds b r.0 r.1) (pasv_loop t bind_retries rounds b)
unfolding pasv_loop
pasv_loop-IsListening t rounds b zero h idle = tt
pasv_loop-IsListening t rounds b (suc i) h idle =
    by_errno (bind_listen ((rounds i).bind (scaled_port t (rounds i).random)) (rounds i).listen) _
      (found-IsListening t rounds b i (h i) idle)
      (subst (λ c. Ends Unit (λ r. IsListening t rounds b r.0 r.1) (pasv_loop t i rounds c))
        (sym (reclosed (rounds i).sock b idle)) (pasv_loop-IsListening t rounds b i h idle))
  where
    by_errno :
        (e : Errno) (again : Outcome (ℕ × Broker))
        → (e ≡ no_error
            → IsListening t rounds b
                (scaled_port t (rounds i).random)
                (record (open_fd (rounds i).sock b) { pasv_listen_fd = some (rounds i).sock }))
        → Ends Unit (λ r. IsListening t rounds b r.0 r.1) again
        → Ends Unit
            (λ r. IsListening t rounds b r.0 r.1)
            (settled e
              (ok (
                scaled_port t (rounds i).random,
                record (open_fd (rounds i).sock b) { pasv_listen_fd = some (rounds i).sock },
              ))
              again)
    by_errno no_error again f k = f refl
    by_errno addr_in_use again f k = k
    by_errno acces again f k = k
    by_errno other_error again f k = tt

-- With bytes as random values, the parent dies or listens: on a port that is not reserved, that is
-- not below the minimum set if that is a port above 1024, and not above the maximum set if that is
-- below 65535 and not below the least port; the system had a socket bound to that port and listen,
-- and of the sockets that were tried this one alone stays open.
pub pasv_listen-IsListening :
    (t : PortTunables) (rounds : ℕ → PasvRound) (b : Broker)
    → ((i : ℕ) → AreBytes (rounds i).random)
    → Ends Unit (λ r. IsListening t rounds b r.0 r.1) (vsf_privop_pasv_listen t rounds b)
unfolding vsf_privop_pasv_listen
pasv_listen-IsListening t rounds b h =
    if_elim (Ends Unit (λ r. IsListening t rounds b r.0 r.1)) (is_active b.pasv_listen_fd) die
      (pasv_loop t 9 rounds b) (λ active. tt)
      (λ idle. pasv_loop-IsListening t rounds b 9 h (not_active b.pasv_listen_fd idle))
