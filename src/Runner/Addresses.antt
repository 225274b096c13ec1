-- ===== src/Runner/Addresses.antt =====
-- The protected IPv4 addresses that `NetworkDestination::validate` of
-- crates/c6-runner/src/lib.rs refuses.
use cresix.Base.{
  ℕ, ◌+◌, ◌/◌, ◌%◌, ◌<◌, ◌≤◌, ◌≡◌, ◌≢◌, [], ◌∷◌, ◌++◌, Bool, true, false, some, ok, ltb,
  if◌then◌else◌, refl, arith, ap, ◌∙◌, ◌⊎◌, ◌>>=◌, fail_if, ◌==◌, ◌||◌,
}
use cresix.Base.Text.{Text, split, has_byte, is_one_of}
use cresix.Runner.Request.{
  Ipv4Addr, parse_octet, parse_ip, is_protected, validate_destination, ValidationError,
  is_protected_host, is_bad_host, blocked, invalid_destination, blocked_destination,
}

-- A number below 1,000 in decimal.
abbrev pub show_octet : ℕ → Text
show_octet n =
    if ltb n 10
    then (b'0' + n) ∷ []
    else if ltb n 100
    then (b'0' + n / 10) ∷ (b'0' + n % 10) ∷ []
    else (b'0' + n / 100) ∷ (b'0' + n / 10 % 10) ∷ (b'0' + n % 10) ∷ []

abbrev pub show_ip : Ipv4Addr → Text
show_ip ip =
    show_octet ip.a
    ++ b'.' ∷ (show_octet ip.b ++ b'.' ∷ (show_octet ip.c ++ b'.' ∷ show_octet ip.d))

parse_octet-show_octet : (n : ℕ) → n < 256 → parse_octet (show_octet n) ≡ some n
unfolding parse_octet
parse_octet-show_octet n h = ground arith

show_octet-dot : (n : ℕ) → n < 256 → has_byte b'.' (show_octet n) ≡ false
show_octet-dot n h = ground arith

split-last : (b : ℕ) (x : Text) → has_byte b x ≡ false → split b x ≡ x ∷ []
split-last b [] h = refl
split-last b (c ∷ x) h = ground (arith, split-last b x)

split-part :
    (b : ℕ) (x rest : Text) → has_byte b x ≡ false → split b (x ++ b ∷ rest) ≡ x ∷ split b rest
split-part b [] rest h = ground arith
split-part b (c ∷ x) rest h = ground (arith, split-part b x rest)

-- The four numbers of an address are bytes.
abbrev pub IsIpv4 : Ipv4Addr → Type 0
IsIpv4 ip = (ip.a < 256) × (ip.b < 256) × (ip.c < 256) × (ip.d < 256)

split-show_ip :
    (ip : Ipv4Addr)
    → IsIpv4 ip
    → split b'.' (show_ip ip)
      ≡ show_octet ip.a ∷ show_octet ip.b ∷ show_octet ip.c ∷ show_octet ip.d ∷ []
split-show_ip ip (a, b, c, d) =
    let cd = show_octet ip.c ++ b'.' ∷ show_octet ip.d in
    split-part b'.' (show_octet ip.a) (show_octet ip.b ++ b'.' ∷ cd) (show_octet-dot ip.a a)
    ∙ ap (λ x. show_octet ip.a ∷ x) (split-part b'.' (show_octet ip.b) cd (show_octet-dot ip.b b))
    ∙ ap (λ x. show_octet ip.a ∷ show_octet ip.b ∷ x)
        (split-part b'.' (show_octet ip.c) (show_octet ip.d) (show_octet-dot ip.c c))
    ∙ ap (λ x. show_octet ip.a ∷ show_octet ip.b ∷ show_octet ip.c ∷ x)
        (split-last b'.' (show_octet ip.d) (show_octet-dot ip.d d))

parse_ip-show_ip : (ip : Ipv4Addr) → IsIpv4 ip → parse_ip (show_ip ip) ≡ some ip
unfolding parse_ip
parse_ip-show_ip ip (a, b, c, d) =
    rw
      (
        split-show_ip ip (a, b, c, d),
        parse_octet-show_octet ip.a a,
        parse_octet-show_octet ip.b b,
        parse_octet-show_octet ip.c c,
        parse_octet-show_octet ip.d d,
      )
      refl

third_guard :
    (x y z : Bool) (e e' e'' : ValidationError)
    → z ≡ true
    → (fail_if x e >>= λ _. fail_if y e' >>= λ _. fail_if z e'') ≢ ok tt
third_guard true y z e e' e'' h g = cc
third_guard false true z e e' e'' h g = cc
third_guard false false true e e' e'' h g = cc
third_guard false false false e e' e'' h g = cc

protected_refused :
    (host : Text) (port : ℕ) (ip : Ipv4Addr)
    → parse_ip host ≡ some ip
    → is_protected ip ≡ true
    → validate_destination (record { host = host; port = port }) ≢ ok tt
unfolding validate_destination
protected_refused host port ip parsed protected =
    let found : is_protected_host host ≡ true = rw (is_protected_host, parsed) protected in
    third_guard (port == 0 || is_bad_host host) (is_one_of blocked host) (is_protected_host host)
      invalid_destination blocked_destination blocked_destination found

-- No private, loopback, link-local, unspecified or multicast IPv4 address, written in decimal,
-- is accepted as a destination.
pub validate_destination-protected :
    (ip : Ipv4Addr) (port : ℕ)
    → IsIpv4 ip
    → (ip.a ≡ 10)
      ⊎ (ip.a ≡ 127)
      ⊎ ((ip.a ≡ 172) × (16 ≤ ip.b) × (ip.b ≤ 31))
      ⊎ ((ip.a ≡ 192) × (ip.b ≡ 168))
      ⊎ ((ip.a ≡ 169) × (ip.b ≡ 254))
      ⊎ ((ip.a ≡ 0) × (ip.b ≡ 0) × (ip.c ≡ 0) × (ip.d ≡ 0))
      ⊎ ((224 ≤ ip.a) × (ip.a ≤ 239))
    → validate_destination (record { host = show_ip ip; port = port }) ≢ ok tt
unfolding is_protected
validate_destination-protected ip port bytes kind =
    protected_refused (show_ip ip) port ip (parse_ip-show_ip ip bytes) (ground arith)
