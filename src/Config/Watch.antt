-- ===== src/Config/Watch.antt =====
-- internal/config/options.go around its parsing: the keys that rehydrateKeys gives, the name of the
-- file that captureConfigFileUsed keeps, and Watch, which reloads the file as it changes. viper,
-- fsnotify and path/filepath are parameters.
use session_proxy.Prelude.{
  ◌≡◌, refl, ap, ◌∙◌, Bool, true, false, ◌&&◌, ◌||◌, not, List, [], ◌∷◌, ◌++◌, Option, none, some,
  if◌then◌else◌, arith,
}
use session_proxy.Prelude.Bytes.{Bytes, codes, is_nil, bytes_discrete, eq_bytes}
use session_proxy.Config.Options.{Options, Loaded, reload}

-- captureConfigFileUsed, with what viper.ConfigFileUsed gives and filepath.Abs.
unfoldable pub capture_config_file_used : (Bytes → Option Bytes) → Bytes → Options → Options
capture_config_file_used abs used opt = if is_nil used then opt else elim (abs used) [
  | none ↦ record opt { config_file = used }
  | some full ↦ record opt { config_file = full }
]

abbrev pub env_only_keys : List Bytes
env_only_keys = codes "log_file" ∷ codes "sleep_detection_threshold" ∷ []

-- Whether the map `seen` has a key.
unfoldable pub has_key : Bytes → List Bytes → Bool
has_key k [] = false
has_key k (j ∷ js) = eq_bytes k j || has_key k js

-- One loop of rehydrateKeys. The keys of `seen` are those that were appended.
unfoldable pub append_keys : List Bytes → List Bytes → List Bytes
append_keys [] keys = keys
append_keys (k ∷ ks) keys =
    let next = if has_key k keys then keys else keys ++ (k ∷ []) in append_keys ks next

-- rehydrateKeys, by viper.AllKeys.
unfoldable pub rehydrate_keys : List Bytes → List Bytes
unfolding append_keys
rehydrate_keys all_keys = append_keys env_only_keys (append_keys all_keys [])

-- What the select of Watch receives. A file event has its name, whether it is a create or a write, and
-- what Parse then makes of the file.
pub data WatchEvent : Type 0 where
  context_done events_closed errors_closed watch_error : WatchEvent
  file_event : Bytes → Bool → Bool → Option Options → WatchEvent

-- The loop of Watch, with filepath.Base: what onChange is called with.
unfoldable pub watch_loop : (Bytes → Bytes) → Options → List WatchEvent → List Loaded
watch_loop base opt [] = []
watch_loop base opt (context_done ∷ es) = []
watch_loop base opt (events_closed ∷ es) = []
watch_loop base opt (errors_closed ∷ es) = []
watch_loop base opt (watch_error ∷ es) = watch_loop base opt es
watch_loop base opt (file_event name creates writes parsed ∷ es) =
    let rest = watch_loop base opt es in
    if not (eq_bytes (base name) (base opt.config_file))
    then rest
    else if not (writes || creates)
    then rest
    else reload parsed opt ∷ rest

-- What Watch returns: an error, or the options that its goroutine reads.
pub data Watching : Type 0 where
  no_config_file create_watcher_failed : Watching
  watching : Options → Watching

-- Watch; `created` says whether fsnotify.NewWatcher succeeds.
unfoldable pub watch : (Bytes → Option Bytes) → Bytes → Bool → Options → Watching
unfolding capture_config_file_used
watch abs used created opt =
    let found = if is_nil opt.config_file then capture_config_file_used abs used opt else opt in
    if is_nil found.config_file
    then no_config_file
    else if created
    then watching found
    else create_watcher_failed

-- The goroutine of Watch; `added` says whether the directory of the file is watched.
unfoldable pub run_watch : (Bytes → Bytes) → Bool → Options → List WatchEvent → List Loaded
unfolding watch_loop
run_watch base added opt es = if added then watch_loop base opt es else []

-- The keys are those of viper and those that only variables of the environment have.
has_key-append :
    (k : Bytes) (js ks : List Bytes) → has_key k (js ++ ks) ≡ (has_key k js || has_key k ks)
unfolding has_key
has_key-append k [] ks = refl
has_key-append k (j ∷ js) ks = ground (arith, has_key-append k js ks)

has_key-next :
    (k j : Bytes) (keys : List Bytes)
    → has_key k (if has_key j keys then keys else keys ++ (j ∷ []))
      ≡ (has_key k keys || eq_bytes k j)
unfolding has_key
has_key-next k j keys = elim (bytes_discrete k j) [
  | yes e ↦ ground (arith, ap (λ x. has_key x keys) e, has_key-append k keys (j ∷ []), e)
  | no n ↦ ground (arith, has_key-append k keys (j ∷ []), n)
]

has_key-append_keys :
    (k : Bytes) (ks keys : List Bytes)
    → has_key k (append_keys ks keys) ≡ (has_key k keys || has_key k ks)
unfolding append_keys has_key
has_key-append_keys k [] keys = ground arith
has_key-append_keys k (j ∷ ks) keys = ground (
  arith,
  has_key-append_keys k ks (if has_key j keys then keys else keys ++ (j ∷ [])),
  has_key-next k j keys,
)

has_key-rehydrate_keys :
    (k : Bytes) (all_keys : List Bytes)
    → has_key k (rehydrate_keys all_keys) ≡ (has_key k all_keys || has_key k env_only_keys)
unfolding rehydrate_keys has_key
has_key-rehydrate_keys k all_keys =
    has_key-append_keys k env_only_keys (append_keys all_keys [])
    ∙ ap (λ b. b || has_key k env_only_keys) (has_key-append_keys k all_keys [])

-- What an event alone makes of a watch that runs: a create or a write of the configuration file is
-- one reload.
reloads : (Bytes → Bytes) → Options → WatchEvent → List Loaded
reloads base opt context_done = []
reloads base opt events_closed = []
reloads base opt errors_closed = []
reloads base opt watch_error = []
reloads base opt (file_event name creates writes parsed) =
    if eq_bytes (base name) (base opt.config_file) && (writes || creates)
    then reload parsed opt ∷ []
    else []

all_reloads : (Bytes → Bytes) → Options → List WatchEvent → List Loaded
all_reloads base opt [] = []
all_reloads base opt (e ∷ es) = reloads base opt e ++ all_reloads base opt es

ends_watch : WatchEvent → Bool
ends_watch context_done = true
ends_watch events_closed = true
ends_watch errors_closed = true
ends_watch watch_error = false
ends_watch (file_event name creates writes parsed) = false

IsRunning : List WatchEvent → Type 0
IsRunning [] = Unit
IsRunning (e ∷ es) = (ends_watch e ≡ false) × IsRunning es

-- A watch calls onChange once for each create or write of the configuration file in front of what
-- ends it, in their order, and for nothing behind that.
run_watch-all_reloads :
    (base : Bytes → Bytes) (opt : Options) (es rest : List WatchEvent) (e : WatchEvent)
    → IsRunning es
    → ends_watch e ≡ true
    → run_watch base true opt (es ++ (e ∷ rest)) ≡ all_reloads base opt es
unfolding run_watch watch_loop reloads all_reloads ends_watch IsRunning
run_watch-all_reloads base opt [] rest context_done r h = refl
run_watch-all_reloads base opt [] rest events_closed r h = refl
run_watch-all_reloads base opt [] rest errors_closed r h = refl
run_watch-all_reloads base opt [] rest watch_error r h = ground (arith, h)
run_watch-all_reloads base opt [] rest (file_event n c w p) r h = ground (arith, h)
run_watch-all_reloads base opt (context_done ∷ es) rest e r h = ground (arith, r.0)
run_watch-all_reloads base opt (events_closed ∷ es) rest e r h = ground (arith, r.0)
run_watch-all_reloads base opt (errors_closed ∷ es) rest e r h = ground (arith, r.0)
run_watch-all_reloads base opt (watch_error ∷ es) rest e r h =
    run_watch-all_reloads base opt es rest e r.1 h
run_watch-all_reloads base opt (file_event n c w p ∷ es) rest e r h =
    ground (arith, run_watch-all_reloads base opt es rest e r.1 h)
