-- ===== src/Cmdline/Keeps.antt =====
-- What every callback keeps of the globals, the parser keeps.
use virtio_forwarder.Prelude.{
  ℕ, ◌+◌, not, ◌&&◌, Option, none, some, List, [], ◌∷◌, ◌==◌, ltb, and_then, Bytes, length, All,
  ◌≡◌, subst, if_intro,
}
use virtio_forwarder.Prelude.Int.{ℤ, is_error}
use virtio_forwarder.Cmdline.Outcome.{answers}
use virtio_forwarder.Cmdline.{
  Opt, Found, Answers, Getopt, Flags, max_options, mandatory_from, Match, find_option, Progress,
  Loop, failed, parsed, is_passed_over, called, take_found, parse_found, Result, has_extra, finish,
  cmdline_parser,
}

module _ {S : Type 0} (P : S → Type 0) where
  abbrev pub Holds : Option (S × ℤ) → Type 0
  Holds none = Unit {0}
  Holds (some r) = P r.0

  abbrev pub KeepsHolds : Opt S → Type 0
  KeepsHolds o = (arg : Option Bytes) (i : ℕ) (s : S) → P s → Holds (o.func arg i s)

  abbrev LoopHolds : Option (Loop S) → Type 0
  LoopHolds none = Unit {0}
  LoopHolds (some (failed s)) = P s
  LoopHolds (some (parsed p)) = P p.globals

  abbrev MatchKeeps : Option (Match S) → Type 0
  MatchKeeps none = Unit {0}
  MatchKeeps (some m) = KeepsHolds m.option

  find_option-Keeps :
      (c i : ℕ) (opts : List (Opt S)) → All KeepsHolds opts → MatchKeeps (find_option c i opts)
  unfolding find_option
  find_option-Keeps c i [] h = tt
  find_option-Keeps c i (o ∷ opts) h =
      if_intro MatchKeeps (o.opt_short == c) _ _ h.0 (find_option-Keeps c (i + 1) opts h.1)

  called-Holds :
      (next : Progress S → Option (Loop S)) (p : Progress S) (m : Match S) (r : Option (S × ℤ))
      → Holds r
      → ((q : Progress S) → P q.globals → LoopHolds (next q))
      → LoopHolds (and_then r (called next p m))
  called-Holds next p m none h k = tt
  called-Holds next p m (some r) h k = if_intro LoopHolds (is_error r.1) _ _ h (k _ h)

  take_found-Holds :
      (flags : Flags) (f : Found) (o : Option (Match S)) (next : Progress S → Option (Loop S))
      (p : Progress S)
      → MatchKeeps o
      → P p.globals
      → ((q : Progress S) → P q.globals → LoopHolds (next q))
      → LoopHolds (take_found flags f o next p)
  take_found-Holds flags f none next p m h k =
      if_intro LoopHolds (is_passed_over flags f) _ _ (k p h) h
  take_found-Holds flags f (some x) next p m h k =
      called-Holds next p x (x.option.func f.optarg x.index p.globals)
        (m f.optarg x.index p.globals h) k

  parse_found-Holds :
      (opts : List (Opt S)) (flags : Flags) (fs : List Found) (p : Progress S)
      → All KeepsHolds opts
      → P p.globals
      → LoopHolds (parse_found opts flags fs p)
  unfolding parse_found
  parse_found-Holds opts flags [] p k h = h
  parse_found-Holds opts flags (f ∷ fs) p k h =
      take_found-Holds flags f (find_option f.c 0 opts) _ p (find_option-Keeps f.c 0 opts k) h
        (λ q l. parse_found-Holds opts flags fs q k l)

  ResultHolds : Option (Result S) → Type 0
  ResultHolds none = Unit {0}
  ResultHolds (some r) = P r.globals

  finish-Holds :
      (opts : List (Opt S)) (flags : Flags) (a : Answers) (l : Option (Loop S))
      → LoopHolds l
      → ResultHolds (and_then l (finish opts flags a))
  unfolding ResultHolds finish
  finish-Holds opts flags a none h = tt
  finish-Holds opts flags a (some (failed s)) h = h
  finish-Holds opts flags a (some (parsed p)) h =
      if_intro ResultHolds
        (not (p.mandatory_check == mandatory_from 0 opts 0) && not p.terminate_check) _ _ h
        (if_intro ResultHolds (has_extra flags a) _ _ h h)

  pub cmdline_parser-Holds :
      (getopt : Getopt) (opts : List (Opt S)) (argv : List Bytes) (flags : Flags) (s : S)
      {r : Result S}
      → All KeepsHolds opts
      → P s
      → cmdline_parser getopt opts argv flags s ≡ some r
      → P r.globals
  unfolding cmdline_parser ResultHolds
  cmdline_parser-Holds getopt opts argv flags s k h e = subst ResultHolds e (
      if_intro ResultHolds (ltb max_options (length opts)) _ _ h (
        finish-Holds opts flags (answers getopt opts argv) _
          (parse_found-Holds opts flags _ _ k h)))
