-- ===== src/Process/Context.antt =====
-- bunsan/process/include/bunsan/process/context.hpp and src/process/context.cpp: what is to be executed.
pub mod Built
use bacs.Base.{
  ℕ, Str, Bool, true, false, not, ◌&&◌, ◌||◌, Option, none, some, List, [], ◌∷◌, ◌++◌, Result, ok,
  err, ◌>>=◌, ◌>>◌, ◌==◌, list_Eq, nat_Eq, if◌then◌else◌,
}
use bacs.Base.Dict.{Dict, lookup, assign}
use bacs.Process.Execute.{
  StdinData, stdin_default, stdin_inherit, stdin_suppress, stdin_text, stdin_file, StdoutData,
  stdout_default, stdout_inherit, stdout_suppress, stdout_file, StderrData, stderr_default,
  stderr_inherit, stderr_suppress, stderr_redirect_to_stdout, stderr_file,
}

-- boost::filesystem and boost::this_process: `is_filename` is `path.filename() == path`; `none` is
-- an exception.
pub record Filesystem : Type 0 where
  pub is_filename : Str → Bool
  pub is_absolute : Str → Bool
  pub absolute : Str → Option Str
  pub current_path : Option Str
  pub environment : List (Str × Str)

pub record Context : Type 0 where
  pub current_path : Option Str
  pub executable : Option Str
  pub arguments : List Str
  pub environment_inherit : Bool
  pub environment : Dict Str Str
  pub use_path : Option Bool
  pub stdin_data : StdinData
  pub stdout_data : StdoutData
  pub stderr_data : StderrData

-- The causes that context_build_error carries.
pub data BuildError : Type 0 where
  nothing_to_execute empty_executable non_basename_executable filesystem_failed : BuildError

-- The default constructor, and what `reset` leaves.
abbrev pub fresh : Context
fresh = record {
  current_path = none;
  executable = none;
  arguments = [];
  environment_inherit = true;
  environment = [];
  use_path = none;
  stdin_data = stdin_default;
  stdout_data = stdout_default;
  stderr_data = stderr_default;
}

-- What arguments_append takes.
pub data Argument : Type 0 where
  text : Str → Argument
  optional : Option Str → Argument
  several : List Str → Argument

-- One argument, and several of them.
unfoldable pub append_one : Argument → List Str → List Str
append_one (text obj) args = args ++ obj ∷ []
append_one (optional none) args = args
append_one (optional (some obj)) args = args ++ obj ∷ []
append_one (several lst) args = args ++ lst

unfoldable pub arguments_append : List Argument → Context → Context
unfolding append_one
arguments_append [] c = c
arguments_append (obj ∷ objs) c =
    arguments_append objs (record c { arguments = append_one obj c.arguments })

unfoldable pub set_arguments : List Argument → Context → Context
unfolding arguments_append
set_arguments objs c = arguments_append objs (record c { arguments = [] })

unfoldable pub environment_inherit_all : Context → Context
environment_inherit_all c = record c { environment_inherit = true; environment = [] }

unfoldable pub environment_reset : Context → Context
environment_reset c = record c { environment_inherit = false; environment = [] }

unfoldable pub environment_set : Str → Str → Context → Context
unfolding assign
environment_set key value c = record c { environment = assign key value c.environment }

-- The arguments and the executable, each from the other.
unfoldable pub fill_command : Context → Result BuildError Context
fill_command c = elim c.arguments [
  | [] ↦ elim c.executable [
    | none ↦ err nothing_to_execute
    | some x ↦ ok (record c { arguments = x ∷ [] })
  ]
  | first ∷ rest ↦ elim c.executable [
    | none ↦ ok (record c { executable = some first })
    | some x ↦ ok c
  ]
]

-- The loop over the environment of the process, and the one over the map, whose keys differ.
unfoldable pub load : List (Str × Str) → Dict Str Str → Dict Str Str
unfolding assign
load [] env = env
load ((name, value) ∷ entries) env = load entries (assign name value env)

unfoldable pub copy_all : Dict Str Str → Dict Str Str → Dict Str Str
unfolding assign
copy_all [] env = env
copy_all ((key, value) ∷ d) env = assign key value (copy_all d env)

unfoldable pub or_else {ℓ} : {A : Type ℓ} → Option A → A → A
or_else none a = a
or_else (some b) a = b

module _ (fs : Filesystem) where
  unfoldable pub fill_environment : Context → Context
  unfolding load copy_all
  fill_environment c = record c {
    environment_inherit = false;
    environment =
        copy_all c.environment (if c.environment_inherit then load fs.environment [] else []);
  }

  -- An answer of the file system, or its exception.
  unfoldable pub asked : Option Str → Result BuildError Str
  asked none = err filesystem_failed
  asked (some p) = ok p

  unfoldable pub fill_current_path : Context → Result BuildError Context
  unfolding asked
  fill_current_path c = elim c.current_path [
    | some p ↦ ok c
    | none ↦ asked fs.current_path >>= (λ p. ok (record c { current_path = some p }))
  ]

  -- `*m_use_path`, after an absolute path has taken it back.
  unfoldable pub decide_use_path : Option Bool → Str → Bool
  unfolding or_else
  decide_use_path use_path x = or_else use_path (fs.is_filename x) && not (fs.is_absolute x)

  unfoldable pub is_empty : Str → Bool
  is_empty [] = true
  is_empty (c ∷ s) = false

  unfoldable pub check_executable : Bool → Str → Result BuildError Str
  unfolding is_empty asked
  check_executable false x = asked (fs.absolute x)
  check_executable true x =
      if is_empty x
      then err empty_executable
      else if fs.is_filename x
      then ok x
      else err non_basename_executable

  -- The end of build_ for the executable `x`.
  unfoldable pub fill_executable : Str → Context → Result BuildError Context
  unfolding decide_use_path check_executable
  fill_executable x c =
      let searches = decide_use_path c.use_path x in
      check_executable searches x
      >>= (λ y. ok (record c { executable = some y; use_path = some searches }))

  unfoldable pub build_ : Context → Result BuildError Context
  unfolding fill_command fill_environment fill_current_path fill_executable
  build_ c = fill_command c >>= (λ d. elim d.executable [
    | none ↦ err nothing_to_execute
    | some x ↦ fill_current_path (fill_environment d) >>= fill_executable x
  ])

  -- `build`: what it throws, and what it leaves of the context.
  unfoldable pub swap_built : Context → Result BuildError Context → Result BuildError Unit × Context
  swap_built c (ok d) = (ok tt, d)
  swap_built c (err e) = (err e, c)

  unfoldable pub build : Context → Result BuildError Unit × Context
  unfolding build_ swap_built
  build c = swap_built c (build_ c)
