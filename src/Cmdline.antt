-- ===== src/Cmdline.antt =====
-- cmdline_parser of cmdline.c, over the globals `S` that the callbacks of the options write. The
-- messages on stderr, and the texts for them, are not modelled. getopt_long is a parameter: the
-- options that it finds one after the other, and the arguments in the order that it leaves them in.
pub mod Outcome
pub mod Keeps
use virtio_forwarder.Prelude.{
  ℕ, zero, suc, ◌+◌, ◌-◌, ◌≤◌, ◌<◌, Bool, true, false, not, ◌&&◌, ◌||◌, Option, none, some, List,
  [], ◌∷◌, ◌++◌, ◌==◌, ltb, leb, if◌then◌else◌, and_then, Bytes, codes, str_equal, length,
  get_elem?,
}
use virtio_forwarder.Prelude.Int.{ℤ, pos, negsuc, is_error}
use virtio_forwarder.Bits.{set_bit}

-- `cmdline_opt_t`; the callback takes the argument and the index, and gives its error code. `none`
-- is an access outside an array.
pub record Opt (S : Type 0) : Type 0 where
  pub opt_long : Bytes
  pub opt_short : ℕ
  pub mandatory : Bool
  pub terminate : Bool
  pub func : Option Bytes → ℕ → S → Option (S × ℤ)
  pub has_arg : ℕ

-- `struct option` of getopt_long.
pub record LongOption : Type 0 where
  pub name : Bytes
  pub has_arg : ℕ
  pub val : ℕ

-- One result of getopt_long, with `optarg` and `optopt`.
pub record Found : Type 0 where
  pub c : ℕ
  pub optarg : Option Bytes
  pub optopt : ℕ

pub record Answers : Type 0 where
  pub found : List Found
  pub argv : List Bytes
  pub optind : ℕ

abbrev pub Getopt : Type 0
Getopt = (optstring : Bytes) → List LongOption → (argv : List Bytes) → Answers

-- The `flags` of the call.
pub record Flags : Type 0 where
  pub ignore_unknown : Bool
  pub ignore_extra : Bool

abbrev pub max_options : ℕ
max_options = 64

-- An option of the table with its index.
pub record Match (S : Type 0) : Type 0 where
  pub index : ℕ
  pub option : Opt S

-- The globals, the mandatory options seen so far, and whether an option ends the program.
pub record Progress (S : Type 0) : Type 0 where
  pub globals : S
  pub mandatory_check : ℕ
  pub terminate_check : Bool

-- `ret = -1; goto exit;` or the end of the loop.
pub data Loop (S : Type 0) : Type 0 where
  failed : S → Loop S
  parsed : Progress S → Loop S

-- A result that is no option of the table: whether it is passed over.
unfoldable pub is_passed_over : Flags → Found → Bool
is_passed_over flags f =
    f.c == b'?'
    && (f.optopt == 0 || not (f.optopt == b'?') && not (f.optopt == b'h') && flags.ignore_unknown)

-- The globals, the code that is returned, and `cmdline_optind` if it is set.
pub record Result (S : Type 0) : Type 0 where
  pub globals : S
  pub ret : ℤ
  pub cmdline_optind : Option ℕ

-- An argument that is no option and stands behind no "--".
unfoldable pub has_extra : Flags → Answers → Bool
has_extra flags a =
    leb 1 a.optind
    && ltb a.optind (length a.argv)
    && not flags.ignore_extra
    && elim (get_elem? a.argv (a.optind - 1)) [
      | none ↦ true
      | some arg ↦ not (str_equal arg (codes "--"))
    ]

module _ {S : Type 0} where
  unfoldable pub opt_chars : Opt S → Bytes
  opt_chars o =
      o.opt_short
      ∷ (if o.has_arg == 0 then [] else if ltb 1 o.has_arg then b':' ∷ b':' ∷ [] else b':' ∷ [])

  unfoldable pub optstring : List (Opt S) → Bytes
  optstring [] = []
  optstring (o ∷ opts) = opt_chars o ++ optstring opts

  unfoldable pub getopt_options : List (Opt S) → List LongOption
  getopt_options [] = []
  getopt_options (o ∷ opts) =
      (record { name = o.opt_long; has_arg = o.has_arg; val = o.opt_short }) ∷ getopt_options opts

  unfoldable pub mandatory_from : (i : ℕ) → List (Opt S) → (bitmap : ℕ) → ℕ
  mandatory_from i [] bitmap = bitmap
  mandatory_from i (o ∷ opts) bitmap =
      mandatory_from (i + 1) opts (if o.mandatory then set_bit bitmap i else bitmap)

  -- `for (i = 0; i < num; ++i) if (optstart[i].opt_short == c) break;`
  unfoldable pub find_option : (c i : ℕ) → List (Opt S) → Option (Match S)
  find_option c i [] = none
  find_option c i (o ∷ opts) =
      let rest = find_option c (i + 1) opts in
      if o.opt_short == c then some (record { index = i; option = o }) else rest

  -- What follows the callback of option `m`.
  abbrev pub called :
      (Progress S → Option (Loop S)) → Progress S → Match S → S × ℤ → Option (Loop S)
  called next p m r =
      if is_error r.1
      then some (failed r.0)
      else next (record {
        globals = r.0;
        mandatory_check =
            if m.option.mandatory then set_bit p.mandatory_check m.index else p.mandatory_check;
        terminate_check = if m.option.terminate then true else p.terminate_check;
      })

  abbrev pub take_found :
      Flags
      → Found
      → Option (Match S)
      → (Progress S → Option (Loop S))
      → Progress S
      → Option (Loop S)
  take_found flags f none next p =
      if is_passed_over flags f then next p else some (failed p.globals)
  take_found flags f (some m) next p =
      and_then (m.option.func f.optarg m.index p.globals) (called next p m)

  -- `while ((c = getopt_long(...)) != -1)`
  unfoldable pub parse_found : List (Opt S) → Flags → List Found → Progress S → Option (Loop S)
  unfolding find_option is_passed_over
  parse_found opts flags [] p = some (parsed p)
  parse_found opts flags (f ∷ fs) p =
      take_found flags f (find_option f.c 0 opts) (λ q. parse_found opts flags fs q) p

  abbrev pub with_ret : S → ℤ → Option ℕ → Option (Result S)
  with_ret s ret optind = some (record { globals = s; ret = ret; cmdline_optind = optind })

  -- The tests behind the loop.
  unfoldable pub finish : List (Opt S) → Flags → Answers → Loop S → Option (Result S)
  unfolding mandatory_from has_extra
  finish opts flags a (failed s) = with_ret s (negsuc 0) none
  finish opts flags a (parsed p) =
      if not (p.mandatory_check == mandatory_from 0 opts 0) && not p.terminate_check
      then with_ret p.globals (negsuc 0) none
      else if has_extra flags a
      then with_ret p.globals (negsuc 0) (some a.optind)
      else with_ret p.globals (pos 0) (some a.optind)

  unfoldable pub cmdline_parser : Getopt → List (Opt S) → List Bytes → Flags → S → Option (Result S)
  unfolding optstring opt_chars getopt_options parse_found finish
  cmdline_parser getopt opts argv flags s =
      if ltb max_options (length opts)
      then with_ret s (negsuc 0) none
      else let a = getopt (b':' ∷ optstring opts) (getopt_options opts) argv in
        and_then
          (parse_found opts flags a.found
            (record { globals = s; mandatory_check = 0; terminate_check = false }))
          (finish opts flags a)
