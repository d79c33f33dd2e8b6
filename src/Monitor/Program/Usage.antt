-- ===== src/Monitor/Program/Usage.antt =====
-- c_monitor/main.c: the options of main.
use mathlib.Core.List.{foldl-append}
use fuzz_monitor.Base.{
  ℕ, ◌≡◌, ◌≢◌, refl, ap, ap₂, ◌∙◌, ◌⊎◌, inl, inr, List, [], ◌∷◌, ◌++◌, foldl, All, Option, none,
  some, arith,
}
use fuzz_monitor.Text.{Text}
use fuzz_monitor.Collections.{Collections}
use fuzz_monitor.Monitor.Program.{
  Options, no_options, take_option, take_options, World, usage, find_bounds, check_given, run_main,
}

-- No option has a letter.
abbrev pub Lacks : ℕ → List (ℕ × Text) → Type 0
Lacks letter opts = All (λ o. (o.0) ≢ letter) opts

-- The option `letter` sets what `read` reads, and no other option does.
module _ (letter : ℕ) (read : Options → Option Text)
    (keeps : (o : Options) (opt : ℕ) (optarg : Text)
      → opt ≢ letter
      → read (take_option o (opt, optarg)) ≡ read o)
    (sets : (o : Options) (optarg : Text)
      → read (take_option o (letter, optarg)) ≡ some optarg) where
  pub lacking :
      (o : Options) (opts : List (ℕ × Text))
      → Lacks letter opts
      → read (foldl take_option o opts) ≡ read o
  lacking o [] lacks = refl
  lacking o ((opt, optarg) ∷ opts) lacks =
      lacking (take_option o (opt, optarg)) opts lacks.1 ∙ keeps o opt optarg lacks.0

  pub last_given :
      (opts pre post : List (ℕ × Text)) (optarg : Text)
      → opts ≡ pre ++ (letter, optarg) ∷ post
      → Lacks letter post
      → read (take_options opts) ≡ some optarg
  unfolding take_options
  last_given opts pre post optarg parts lacks =
      let before = foldl take_option no_options pre in
      ap (λ os. read (foldl take_option no_options os)) parts
      ∙ ap read (foldl-append take_option no_options pre ((letter, optarg) ∷ post))
      ∙ lacking (take_option before (letter, optarg)) post lacks
      ∙ sets before optarg

script_keeps :
    (o : Options) (opt : ℕ) (optarg : Text)
    → opt ≢ b'b'
    → (take_option o (opt, optarg)).basic_block_script ≡ o.basic_block_script
unfolding take_option
script_keeps o opt optarg other = ground arith

corpus_keeps :
    (o : Options) (opt : ℕ) (optarg : Text)
    → opt ≢ b'c'
    → (take_option o (opt, optarg)).fuzz_corpus_path ≡ o.fuzz_corpus_path
unfolding take_option
corpus_keeps o opt optarg other = ground arith

script_sets :
    (o : Options) (optarg : Text) → (take_option o (b'b', optarg)).basic_block_script ≡ some optarg
unfolding take_option
script_sets o optarg = refl

corpus_sets :
    (o : Options) (optarg : Text) → (take_option o (b'c', optarg)).fuzz_corpus_path ≡ some optarg
unfolding take_option
corpus_sets o optarg = refl

module _ (lib : Collections) where
  no_corpus_lem :
      (w : World) (o : Options) (sut : List Text) (script : Option Text)
      → check_given lib w o sut script none ≡ usage
  unfolding check_given
  no_corpus_lem w o sut none = refl
  no_corpus_lem w o sut (some script) = refl

  missing_lem :
      (w : World) (opts : List (ℕ × Text)) (sut : List Text)
      → ((take_options opts).basic_block_script ≡ none)
        ⊎ ((take_options opts).fuzz_corpus_path ≡ none)
      → run_main lib w opts sut ≡ usage
  unfolding run_main check_given
  missing_lem w opts [] either = refl
  missing_lem w opts (command ∷ args) (inl no_script) =
      ap
        (λ s.
          check_given lib w (take_options opts) (command ∷ args) s
            (take_options opts).fuzz_corpus_path)
        no_script
  missing_lem w opts (command ∷ args) (inr no_corpus) =
      ap
        (check_given lib w (take_options opts) (command ∷ args)
          (take_options opts).basic_block_script)
        no_corpus
      ∙ no_corpus_lem w (take_options opts) (command ∷ args) (take_options opts).basic_block_script

  -- Without a command, without an option -b or without an option -c, main prints its usage and exits.
  pub run_main-usage :
      (w : World) (opts : List (ℕ × Text)) (sut : List Text)
      → (sut ≡ []) ⊎ Lacks b'b' opts ⊎ Lacks b'c' opts
      → run_main lib w opts sut ≡ usage
  unfolding run_main take_options no_options
  run_main-usage w opts sut (inl e) = ap (run_main lib w opts) e
  run_main-usage w opts sut (inr (inl lacks)) = missing_lem w opts sut (
      inl (lacking b'b' (λ o. o.basic_block_script) script_keeps script_sets no_options opts lacks))
  run_main-usage w opts sut (inr (inr lacks)) =
      missing_lem w opts sut (
        inr (lacking b'c' (λ o. o.fuzz_corpus_path) corpus_keeps corpus_sets no_options opts lacks))

  -- With a command, an option -b and an option -c, and whatever the other options are, main goes on: to the
  -- corpus of its last option -c.
  pub run_main-starts :
      (w : World) (opts pre post pre' post' : List (ℕ × Text)) (command script corpus : Text)
      (args : List Text)
      → opts ≡ pre ++ (b'b', script) ∷ post
      → Lacks b'b' post
      → opts ≡ pre' ++ (b'c', corpus) ∷ post'
      → Lacks b'c' post'
      → run_main lib w opts (command ∷ args)
        ≡ find_bounds lib w (take_options opts) (command ∷ args) corpus (take_options opts).sec_name
  unfolding run_main check_given
  run_main-starts w opts pre post pre' post' command script corpus args at last at' last' =
      ap₂ (check_given lib w (take_options opts) (command ∷ args))
        (last_given b'b' (λ o. o.basic_block_script) script_keeps script_sets opts pre post script
          at last)
        (last_given b'c' (λ o. o.fuzz_corpus_path) corpus_keeps corpus_sets opts pre' post' corpus
          at' last')
