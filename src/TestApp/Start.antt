-- ===== src/TestApp/Start.antt =====
-- test-app/src/main.rs: the port, and how the process starts and ends.
use anywhere_mesh.Base.{
  ℕ, zero, suc, ◌+◌, ◌-◌, ◌*◌, ◌/◌, ◌%◌, ◌<◌, Text, codes, show_nat, ltb, Option, none, some, ◌||◌,
  [], ◌∷◌, ◌++◌, if◌then◌else◌, ◌≡◌, refl, inl, inr, arith, Bool-cases, nat_beq, ◌≤◌, ap, sym, ◌∙◌,
  digits_of,
}
use anywhere_mesh.TestApp.{service_port}

-- The digits behind those read; none for a byte that is no digit, or a number past 16 bits.
unfoldable pub read_u16 : ℕ → Text → Option ℕ
read_u16 n [] = some n
read_u16 n (c ∷ s) =
    let m : ℕ = 10 * n + (c - 48) in
    let rest = read_u16 m s in if ltb c 48 || ltb 57 c || ltb 65535 m then none else rest

-- s.parse::<u16>()
unfoldable pub parse_u16 : Text → Option ℕ
unfolding read_u16
parse_u16 [] = none
parse_u16 (c ∷ []) = read_u16 0 (c ∷ [])
parse_u16 (c ∷ d ∷ s) = if nat_beq c b'+' then read_u16 0 (d ∷ s) else read_u16 0 (c ∷ d ∷ s)

-- The variable PORT or the service's port; none if `expect` panics.
unfoldable pub port_from : Option Text → Option ℕ
unfolding parse_u16
port_from var = parse_u16 (elim var [ some text ↦ text | none ↦ show_nat service_port ])

-- How `main` ends, if it does: by the panic of `expect`, with a status, or as the server ends.
pub data Ended : Type 0 where
  panicked : Ended
  exited : ℕ → Ended
  served : Text → Ended

-- With what binding an address and serving come to: none, or the text of an error.
unfoldable pub main : Option Text → (Text → Option Text) → (Text → Option Text) → Ended
unfolding port_from
main var bind serve = elim (port_from var) [
  | none ↦ panicked
  | some port ↦
      let addr : Text = codes "0.0.0.0:" ++ show_nat port in
      elim (bind addr) [
        | some e ↦ exited 1
        | none ↦ elim (serve addr) [ some e ↦ exited 1 | none ↦ served addr ]
      ]
]

-- The number that is read with one more digit behind.
with_digit : ℕ → Option ℕ → Option ℕ
with_digit d none = none
with_digit d (some m) = if ltb 65535 (10 * m + d) then none else some (10 * m + d)

read_u16-append :
    (n : ℕ) (s : Text) (d : ℕ)
    → d < 10
    → read_u16 n (s ++ (48 + d) ∷ []) ≡ with_digit d (read_u16 n s)
unfolding read_u16 with_digit
read_u16-append n [] d h = ground arith
read_u16-append n (c ∷ s) d h = ground (arith, read_u16-append (10 * n + (c - 48)) s d h)

read_u16-digits_of :
    (fuel n : ℕ) → n < fuel → read_u16 0 (digits_of fuel n) ≡ (if ltb 65535 n then none else some n)
unfolding digits_of read_u16
read_u16-digits_of zero n h = absurd (omega arith)
read_u16-digits_of (suc fuel) n h = elim (Bool-cases (ltb n 10)) [
  | inl e ↦ rw (e, digits_of) (ground arith)
  | inr e ↦
      let more = read_u16-digits_of fuel (n / 10) (ground arith) in
      let last = read_u16-append 0 (digits_of fuel (n / 10)) (n % 10) (omega arith) in
      rw (e, digits_of) (last ∙ rw more (unfold with_digit in ground arith))
]

-- The first byte of what is printed is a digit.
digits_of-head :
    (fuel n : ℕ) → n < fuel → (c : ℕ) × (s : Text) × (digits_of fuel n ≡ c ∷ s) × (48 ≤ c)
unfolding digits_of
digits_of-head zero n h = absurd (omega arith)
digits_of-head (suc fuel) n h = elim (Bool-cases (ltb n 10)) [
  | inl e ↦ (48 + n % 10, [], rw (e, digits_of) refl, omega arith)
  | inr e ↦
      let (c, s, same, digit) = digits_of-head fuel (n / 10) (ground arith) in
      (c, s ++ (48 + n % 10) ∷ [], rw (e, digits_of) (rw same refl), digit)
]

parse_u16-digit : (c : ℕ) (s : Text) → 48 ≤ c → parse_u16 (c ∷ s) ≡ read_u16 0 (c ∷ s)
unfolding parse_u16
parse_u16-digit c [] h = refl
parse_u16-digit c (d ∷ s) h = ground arith

parse_u16-show_nat : (n : ℕ) → parse_u16 (show_nat n) ≡ (if ltb 65535 n then none else some n)
unfolding show_nat
parse_u16-show_nat n =
    let (c, s, same, digit) = digits_of-head (suc n) n (omega arith) in
    rw same (
      parse_u16-digit c s digit
      ∙ (ap (read_u16 0) (sym same) ∙ read_u16-digits_of (suc n) n (omega arith)))

show_3000 : show_nat 3000 ≡ codes "3000"
unfolding show_nat digits_of
show_3000 = refl

module _ (n : ℕ) (bind serve : Text → Option Text) (binds : (addr : Text) → bind addr ≡ none)
    (serves : (addr : Text) → serve addr ≡ none) where
  serves_port :
      (var : Option Text) (port : ℕ)
      → port_from var ≡ some port
      → main var bind serve ≡ served (codes "0.0.0.0:" ++ show_nat port)
  unfolding main
  serves_port var port e =
      let addr : Text = codes "0.0.0.0:" ++ show_nat port in
      rw (e, main) (rw (binds addr) (rw (serves addr) refl))

  -- If any address can be bound and served, the app serves port 3000 when PORT is not set, and the
  -- port that PORT writes as a decimal number; it panics if that number needs more than 16 bits.
  pub main_serves :
      (main none bind serve ≡ served (codes "0.0.0.0:3000"))
      × (main (some (show_nat n)) bind serve
          ≡ (if ltb 65535 n then panicked else served (codes "0.0.0.0:" ++ show_nat n)))
  unfolding main port_from
  main_serves = (
    serves_port none 3000 (parse_u16-show_nat 3000)
        ∙ ap (λ (t : Text). served (codes "0.0.0.0:" ++ t)) show_3000,
    elim (Bool-cases (ltb 65535 n)) [
      | inl e ↦ rw (parse_u16-show_nat n, main) (rw e refl)
      | inr e ↦ rw e (serves_port (some (show_nat n)) n (rw (parse_u16-show_nat n) (rw e refl)))
    ],
  )
