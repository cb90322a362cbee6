-- ===== src/Cmdline/Outcome.antt =====
-- What it takes for the parser to return 0.
use virtio_forwarder.Prelude.{
  ℕ, zero, suc, ◌+◌, true, false, Option, none, some, List, [], ◌∷◌, ◌==◌, ltb, if◌then◌else◌,
  and_then-eq-some, Bytes, length, get_elem?, ◌≡◌, ◌⊎◌, inl, inr, refl, sym, ap, ◌∙◌, arith,
  Bool-cases, ==_iff,
}
use mathlib.Core.Option.{some-injective}
use virtio_forwarder.Prelude.Int.{pos, is_error}
use virtio_forwarder.Bits.{test_bit, set_bit}
use virtio_forwarder.Bits.Mask.{test_bit-zero, test_bit-set_self, test_bit-set_ne}
use virtio_forwarder.Cmdline.{
  Opt, Found, Answers, Getopt, Flags, max_options, optstring, getopt_options, mandatory_from, Match,
  find_option, Progress, Loop, failed, parsed, is_passed_over, called, take_found, parse_found,
  Result, finish, cmdline_parser,
}

set_bit-keeps : (b i k : ℕ) → test_bit b k ≡ true → test_bit (set_bit b i) k ≡ true
set_bit-keeps b i k h = elim (Bool-cases (i == k)) [
  | inl e ↦ rw ((==_iff i k).0 e) (test_bit-set_self k b)
  | inr e ↦ test_bit-set_ne i k b (λ p. ground arith) ∙ h
]

-- A bit that is set is the one set last, or was set before.
set_bit-inv : (b i k : ℕ) → test_bit (set_bit b i) k ≡ true → (i ≡ k) ⊎ (test_bit b k ≡ true)
set_bit-inv b i k h = elim (Bool-cases (i == k)) [
  | inl e ↦ inl ((==_iff i k).0 e)
  | inr e ↦ inr (sym (test_bit-set_ne i k b (λ p. ground arith)) ∙ h)
]

module _ {S : Type 0} where
  mandatory_from-keeps :
      (i : ℕ) (opts : List (Opt S)) (b k : ℕ)
      → test_bit b k ≡ true
      → test_bit (mandatory_from i opts b) k ≡ true
  unfolding mandatory_from
  mandatory_from-keeps i [] b k h = h
  mandatory_from-keeps i (o ∷ opts) b k h = elim (Bool-cases o.mandatory) [
    | inl e ↦ rw e (mandatory_from-keeps (i + 1) opts (set_bit b i) k (set_bit-keeps b i k h))
    | inr e ↦ rw e (mandatory_from-keeps (i + 1) opts b k h)
  ]

  -- The bitmap has the bit of each mandatory option.
  mandatory_from-bit :
      (i : ℕ) (opts : List (Opt S)) (b j : ℕ) {o : Opt S}
      → get_elem? opts j ≡ some o
      → o.mandatory ≡ true
      → test_bit (mandatory_from i opts b) (i + j) ≡ true
  unfolding mandatory_from
  mandatory_from-bit i [] b j {o} e m = cc
  mandatory_from-bit i (x ∷ opts) b zero {o} e m =
      rw (ap (λ y. y.mandatory) (some-injective x o e) ∙ m) (
        mandatory_from-keeps (i + 1) opts (set_bit b i) (i + 0)
          (ap (test_bit (set_bit b i)) {x = i + 0} {y = i} (omega arith) ∙ test_bit-set_self i b))
  mandatory_from-bit i (x ∷ opts) b (suc j) {o} e m =
      ap (test_bit (mandatory_from (i + 1) opts (if x.mandatory then set_bit b i else b)))
        {x = i + suc j} {y = i + 1 + j} (omega arith)
      ∙ mandatory_from-bit (i + 1) opts (if x.mandatory then set_bit b i else b) j e m

  -- getopt_long has found the option with index `j`.
  pub data IsGiven (opts : List (Opt S)) (j : ℕ) : List Found → Type 0 where
    here :
        {f : Found} {fs : List Found} (m : Match S)
        → find_option f.c 0 opts ≡ some m
        → m.index ≡ j
        → IsGiven opts j (f ∷ fs)
    there : {f : Found} {fs : List Found} → IsGiven opts j fs → IsGiven opts j (f ∷ fs)

  -- It has found an option that ends the program.
  pub data IsTerminated (opts : List (Opt S)) : List Found → Type 0 where
    here :
        {f : Found} {fs : List Found} (m : Match S)
        → find_option f.c 0 opts ≡ some m
        → m.option.terminate ≡ true
        → IsTerminated opts (f ∷ fs)
    there : {f : Found} {fs : List Found} → IsTerminated opts fs → IsTerminated opts (f ∷ fs)

  abbrev advanced : Progress S → Match S → S → Progress S
  advanced p m s = record {
    globals = s;
    mandatory_check =
        if m.option.mandatory then set_bit p.mandatory_check m.index else p.mandatory_check;
    terminate_check = if m.option.terminate then true else p.terminate_check;
  }

  -- A result of getopt_long that does not end the loop.
  take_found-inv :
      (flags : Flags) (f : Found) (o : Option (Match S)) (next : Progress S → Option (Loop S))
      (p q : Progress S)
      → take_found flags f o next p ≡ some (parsed q)
      → (next p ≡ some (parsed q))
        ⊎ ((m : Match S) × (s : S) × (o ≡ some m) × (next (advanced p m s) ≡ some (parsed q)))
  take_found-inv flags f none next p q h = elim (Bool-cases (is_passed_over flags f)) [
    | inl e ↦ inl (rw e at h)
    | inr e ↦ absurd (let k = rw e at h in cc)
  ]
  take_found-inv flags f (some m) next p q h =
      let (r, called, k) = and_then-eq-some (m.option.func f.optarg m.index p.globals) _ h in
      elim (Bool-cases (is_error r.1)) [
        | inl e ↦ absurd (let l = rw e at k in cc)
        | inr e ↦ inr (m, r.0, refl, rw e at k)
      ]

  -- A bit of the check stands for an option that was given.
  parse_found-check :
      (opts : List (Opt S)) (flags : Flags) (fs : List Found) (p q : Progress S) (j : ℕ)
      → parse_found opts flags fs p ≡ some (parsed q)
      → test_bit q.mandatory_check j ≡ true
      → IsGiven opts j fs ⊎ (test_bit p.mandatory_check j ≡ true)
  unfolding parse_found
  parse_found-check opts flags [] p q j h b = inr (cc)
  parse_found-check opts flags (f ∷ fs) p q j h b =
      elim (take_found-inv flags f (find_option f.c 0 opts) _ p q h) [
        | inl k ↦ elim (parse_found-check opts flags fs p q j k b) [
          | inl g ↦ inl (there g)
          | inr t ↦ inr t
        ]
        | inr (m, s, e, k) ↦ elim (parse_found-check opts flags fs (advanced p m s) q j k b) [
          | inl g ↦ inl (there g)
          | inr t ↦ elim (advanced-check p m s j t) [ inl i ↦ inl (here m e i) | inr u ↦ inr u ]
        ]
      ]
    where
      advanced-check :
          (p : Progress S) (m : Match S) (s : S) (j : ℕ)
          → test_bit ((advanced p m s).mandatory_check) j ≡ true
          → (m.index ≡ j) ⊎ (test_bit p.mandatory_check j ≡ true)
      advanced-check p m s j t = elim (Bool-cases m.option.mandatory) [
        | inl e ↦ set_bit-inv p.mandatory_check m.index j (rw e at t)
        | inr e ↦ inr (rw e at t)
      ]

  parse_found-terminate :
      (opts : List (Opt S)) (flags : Flags) (fs : List Found) (p q : Progress S)
      → parse_found opts flags fs p ≡ some (parsed q)
      → q.terminate_check ≡ true
      → IsTerminated opts fs ⊎ (p.terminate_check ≡ true)
  unfolding parse_found
  parse_found-terminate opts flags [] p q h b = inr (cc)
  parse_found-terminate opts flags (f ∷ fs) p q h b =
      elim (take_found-inv flags f (find_option f.c 0 opts) _ p q h) [
        | inl k ↦ elim (parse_found-terminate opts flags fs p q k b) [
          | inl g ↦ inl (there g)
          | inr t ↦ inr t
        ]
        | inr (m, s, e, k) ↦ elim (parse_found-terminate opts flags fs (advanced p m s) q k b) [
          | inl g ↦ inl (there g)
          | inr t ↦ elim (Bool-cases m.option.terminate) [
            | inl y ↦ inl (here m e y)
            | inr n ↦ inr (rw n at t)
          ]
        ]
      ]

  finish-parsed :
      (opts : List (Opt S)) (flags : Flags) (a : Answers) (l : Loop S) {r : Result S}
      → finish opts flags a l ≡ some r
      → r.ret ≡ pos 0
      → (p : Progress S) × (l ≡ parsed p)
        × ((p.mandatory_check ≡ mandatory_from 0 opts 0) ⊎ (p.terminate_check ≡ true))
  unfolding finish
  finish-parsed opts flags a (failed s) h e = cc
  finish-parsed opts flags a (parsed p) h e =
      elim (Bool-cases (p.mandatory_check == mandatory_from 0 opts 0)) [
        | inl y ↦ (p, refl, inl ((==_iff _ _).0 y))
        | inr n ↦ elim (Bool-cases p.terminate_check) [
          | inl t ↦ (p, refl, inr t)
          | inr t ↦ absurd (let k = rw (n, t) at h in cc)
        ]
      ]

  abbrev begin : S → Progress S
  begin s = record { globals = s; mandatory_check = 0; terminate_check = false }

  abbrev pub answers : Getopt → List (Opt S) → List Bytes → Answers
  answers getopt opts argv = getopt (b':' ∷ optstring opts) (getopt_options opts) argv

  -- When the parser returns 0, an option that ends the program was given, or each mandatory option
  -- of the table was.
  pub cmdline_parser-mandatory :
      (getopt : Getopt) (opts : List (Opt S)) (argv : List Bytes) (flags : Flags) (s : S) (j : ℕ)
      {o : Opt S} {r : Result S}
      → cmdline_parser getopt opts argv flags s ≡ some r
      → r.ret ≡ pos 0
      → get_elem? opts j ≡ some o
      → o.mandatory ≡ true
      → IsTerminated opts (answers getopt opts argv).found
        ⊎ IsGiven opts j (answers getopt opts argv).found
  unfolding cmdline_parser
  cmdline_parser-mandatory getopt opts argv flags s j h e at m =
      elim (Bool-cases (ltb max_options (length opts))) [
        | inl y ↦ absurd (let k = rw y at h in cc)
        | inr n ↦
            let (l, parse, done) = and_then-eq-some _ _ (rw n at h) in
            let (p, is, how) = finish-parsed opts flags (answers getopt opts argv) l done e in
            given how (parse ∙ ap some is)
      ]
    where
      given :
          {p : Progress S}
          → (p.mandatory_check ≡ mandatory_from 0 opts 0) ⊎ (p.terminate_check ≡ true)
          → parse_found opts flags (answers getopt opts argv).found (begin s) ≡ some (parsed p)
          → IsTerminated opts (answers getopt opts argv).found
            ⊎ IsGiven opts j (answers getopt opts argv).found
      given {p} (inl same) run =
          elim (parse_found-check opts flags _ (begin s) p j run (
            rw same (
              ap (test_bit (mandatory_from 0 opts 0)) {x = j} {y = 0 + j} (omega arith)
              ∙ mandatory_from-bit 0 opts 0 j at m))) [
                | inl g ↦ inr g
                | inr t ↦ absurd (let k = test_bit-zero j in cc)
              ]
      given {p} (inr t) run = elim (parse_found-terminate opts flags _ (begin s) p run t) [
        | inl g ↦ inl g
        | inr f ↦ cc
      ]
