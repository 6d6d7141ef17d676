-- ===== src/NetAddress/HostPort.antt =====
-- `ParseNetAddress` of a host name and a port.
use cpp_temp_learn.Prelude.{
  ℕ, ◌+◌, ◌^◌, ◌≤◌, ◌<◌, Bool, true, false, ◌&&◌, [], ◌∷◌, ◌++◌, some, ◌≡◌, ◌≢◌, refl, sym, ap, ◌∙◌,
  arith, Bytes, All, Lacks, append-nil, lt→ltb, if◌then◌else◌,
}
use cpp_temp_learn.Strings.{split, join}
use cpp_temp_learn.Strings.Parts.{split-join}
use cpp_temp_learn.FsObject.{ℤ, pos}
use cpp_temp_learn.Numbers.{scan_number, starts_with_digit}
use cpp_temp_learn.Numbers.Decimals.{IsDigit, decimal_value, scan_number-decimal_value}
use cpp_temp_learn.NetAddress.{
  count_byte, of_pieces, is_bracketed, split_host, canonical, scan_int, is_port, check_port,
  parse_net_address,
}

count_byte-Lacks : (b : ℕ) (s : Bytes) → Lacks b s → count_byte b s ≡ 0
unfolding count_byte
count_byte-Lacks b [] h = refl
count_byte-Lacks b (c ∷ s) (n, h) = ground (arith, n, count_byte-Lacks b s h)

count_byte-append : (b : ℕ) (s t : Bytes) → count_byte b (s ++ t) ≡ count_byte b s + count_byte b t
unfolding count_byte
count_byte-append b [] t = omega arith
count_byte-append b (c ∷ s) t = omega (arith, count_byte-append b s t)

digits-Lacks : (s : Bytes) → All IsDigit s → Lacks b':' s
digits-Lacks [] h = tt
digits-Lacks (c ∷ s) ((l, u), h) = ((λ e. absurd (omega (arith, u, e))), digits-Lacks s h)

neither : {A : Type 0} (b : Bool) (p q : A) → (if (b && false) && true then p else q) ≡ q
neither true p q = refl
neither false p q = refl

chosen : {A : Type 0} (b : Bool) → b ≡ true → (p q : A) → (if b then p else q) ≡ p
chosen true e p q = refl
chosen false e p q = absurd (cc e)

abbrev colon : ℕ
colon = b':'

module _ (x : ℕ) (h : Bytes) (c : ℕ) (s : Bytes) (open_host : x ≢ b'[')
    (no_colon : Lacks b':' (x ∷ h)) (d : IsDigit c) (ds : All IsDigit s) where
  abbrev address : Bytes
  address = (x ∷ h) ++ (colon ∷ (c ∷ s))

  one_colon : count_byte colon address ≡ 1
  unfolding count_byte
  one_colon = omega (
    arith,
    count_byte-append colon (x ∷ h) (colon ∷ (c ∷ s)),
    count_byte-Lacks colon (x ∷ h) no_colon,
    count_byte-Lacks colon (c ∷ s) (digits-Lacks (c ∷ s) (d, ds)),
  )

  pieces : split address (colon ∷ []) ≡ some ((x ∷ h) ∷ (c ∷ s) ∷ [])
  unfolding join
  pieces = split-join (x ∷ h) ((c ∷ s) ∷ []) colon (no_colon, (digits-Lacks (c ∷ s) (d, ds), tt))

  not_bracketed : is_bracketed address ≡ false
  unfolding is_bracketed
  not_bracketed = ground (arith, open_host)

  split_host-pieces :
      split_host address ≡ some (record { host = x ∷ h; ipv6 = false; port_text = some (c ∷ s) })
  unfolding split_host of_pieces
  split_host-pieces = rw (not_bracketed, one_colon, pieces, split_host) (neither _ _ _)

  scan_int-decimal_value :
      decimal_value 0 (c ∷ s) ≤ 65535
      → scan_int (c ∷ s) ≡ some (some (pos (decimal_value 0 (c ∷ s))))
  unfolding scan_int
  scan_int-decimal_value l =
      let v = decimal_value 0 (c ∷ s) in
      let scanned : scan_number (c ∷ s) 10 ≡ some (false, v, []) =
        ap (λ t. scan_number (c ∷ t) 10) (sym (append-nil s))
        ∙ scan_number-decimal_value c s [] d ds (unfold starts_with_digit in refl) in
      rw (scanned, lt→ltb v (2 ^ 31) (omega (arith, l)), scan_int) refl

  -- `ParseNetAddress` of a host that is not empty, holds no ':' and does not start with a bracket, a
  -- ':' and decimal digits that spell a number from 1 to 65535 accepts it, with this host and this
  -- number.
  pub parse_net_address-decimal_value :
      (port : ℤ)
      → 0 < decimal_value 0 (c ∷ s)
      → decimal_value 0 (c ∷ s) ≤ 65535
      → parse_net_address address port
        ≡ some (record {
          accepted = true;
          host = x ∷ h;
          port = pos (decimal_value 0 (c ∷ s));
          text = canonical false (x ∷ h) (pos (decimal_value 0 (c ∷ s)));
        })
  unfolding parse_net_address check_port is_port
  parse_net_address-decimal_value port lo hi =
      let v = decimal_value 0 (c ∷ s) in
      let fits : is_port (pos v) ≡ true = ground (arith, lo, hi) in
      rw (split_host-pieces, scan_int-decimal_value hi, parse_net_address, check_port)
        (chosen (is_port (pos v)) fits _ _)
