-- ===== src/Client.antt =====
-- cmd/client/client.go: the command-line client, which inserts sample data or runs a menu.
pub mod Dummy
use Prim.Native.String.{◌++◌}
use sharded_kvs.Prelude.{
  ℕ, zero, suc, ◌-◌, String, Bool, true, false, List, [], ◌∷◌, GoMap, itoa, eqb, if◌then◌else◌,
  Error, Result, ok, err, Outcome, returns, panics, waits, ◌>>=◌,
}

pub record KvctlSpec : Type 0 where
  pub shards : ℕ
  pub replicas : ℕ
  pub ingress_domain : String

pub record KvctlMetadata : Type 0 where
  pub name : String
  pub namespace : String
  pub labels : GoMap String

-- The file that the client is pointed to; of the pod's specification it reads nothing.
pub record KvctlConfig : Type 0 where
  pub api_version : String
  pub kind : String
  pub metadata : KvctlMetadata
  pub spec : KvctlSpec

-- The terminal and the server behind the connection.
pub record Console : Type 1 where
  pub World : Type 0
  -- reading and parsing the file; `panics` is `log.Fatalf`
  pub read_config : World → Outcome KvctlConfig
  pub print : String → World → World
  -- `fmt.Scanln(&choice)`: the variable afterwards, which keeps its value if nothing could be read.
  -- A number that is negative is not modelled.
  pub scan_int : ℕ → World → World × ℕ
  -- `fmt.Scanln` of a variable that is ""
  pub scan_text : World → World × String
  pub error_text : Error → String
  -- whether `grpc.Dial` gives a connection
  pub dial : String → World → World × Bool
  -- KVClient
  pub get : String → World → World × Result String
  pub put : String → String → World → World × Result (Unit {0})
  pub delete : String → World → World × Result (Unit {0})

-- `fmt.Sprintf("%s-shard-%d", name, i)`
abbrev shard_label : String → ℕ → String
shard_label name i = name ++ ("-shard-" ++ itoa i)

-- `fmt.Sprintf("%s-shard-%d.%s:80", name, choice, ingressDomain)`
unfoldable pub ingress_address : KvctlConfig → ℕ → String
ingress_address config i =
    shard_label config.metadata.name i ++ ("." ++ (config.spec.ingress_domain ++ ":80"))

module _ (k : Console) where
  -- The error of a put or a delete is printed.
  unfoldable pub print_error : k.World × Result (Unit {0}) → k.World
  print_error (w, ok u) = w
  print_error (w, err e) = k.print (k.error_text e) w

  -- The loop of the sample data, from `i` on: the key `i` gets the value `100 - i`.
  unfoldable pub insert_dummy : ℕ → ℕ → k.World → k.World
  unfolding print_error
  insert_dummy i zero w = w
  insert_dummy i (suc count) w =
      insert_dummy (suc i) count
        (print_error (k.put (itoa i) (itoa (100 - i)) (k.print ("Setting key " ++ itoa i) w)))

  unfoldable pub print_all : List String → k.World → k.World
  print_all [] w = w
  print_all (line ∷ lines) w = print_all lines (k.print line w)

  -- The shards from `i` on, one line each.
  unfoldable pub print_shards : String → ℕ → ℕ → k.World → k.World
  print_shards name i zero w = w
  print_shards name i (suc count) w =
      print_shards name (suc i) count (k.print (itoa i ++ (". " ++ shard_label name i)) w)

  unfoldable pub print_result : k.World × Result String → k.World
  print_result (w, ok value) = k.print value w
  print_result (w, err e) = k.print (k.error_text e) w

  -- The `switch` of the menu, but for the choice to quit.
  unfoldable pub run_choice : ℕ → k.World → k.World
  unfolding print_result print_error
  run_choice choice w =
      if eqb choice 1
      then (let (w', key) = k.scan_text (k.print "Enter key to get: " w) in
          print_result (k.get key w'))
      else if eqb choice 2
      then (let (w', key) = k.scan_text (k.print "Enter key to put: " w) in
          let (w'', value) = k.scan_text (k.print "Enter value to put: " w') in
          print_error (k.put key value w''))
      else if eqb choice 3
      then (let (w', key) = k.scan_text (k.print "Enter key to delete: " w) in
          print_error (k.delete key w'))
      else k.print "Invalid choice. Please enter a valid option." w

  -- The menu, until 4 is chosen; `fuel` bounds the rounds.
  unfoldable pub menu_loop : ℕ → ℕ → k.World → Outcome k.World
  unfolding run_choice print_all
  menu_loop zero choice w = waits
  menu_loop (suc fuel) choice w =
      let (w', chosen) = k.scan_int choice (
        print_all
          ("Menu:" ∷ "1. Get" ∷ "2. Put" ∷ "3. Delete" ∷ "4. Quit" ∷ "Enter your choice: " ∷ [])
          w) in
      let rest = menu_loop fuel chosen (run_choice chosen w') in
      if eqb chosen 4 then returns (k.print "Quitting..." w') else rest

  -- A dial that fails is a panic.
  unfoldable pub connect : String → (k.World → Outcome k.World) → k.World → Outcome k.World
  connect address next w =
      let (w', connected) = k.dial address w in
      let rest = next w' in if connected then rest else panics

  unfoldable pub main : ℕ → Bool → k.World → Outcome k.World
  unfolding connect insert_dummy menu_loop print_shards
  main fuel dummy_data w = k.read_config w >>= λ config.
      let dummies = connect (ingress_address config 0) (λ w'. returns (insert_dummy 0 100 w')) w in
      let (w', choice) = k.scan_int 0 (
        k.print "Choice: " (
          print_shards config.metadata.name 0 config.spec.shards
            (k.print "Select shard to communicate: " (k.print config.api_version w)))) in
      if dummy_data
      then dummies
      else connect (ingress_address config choice) (menu_loop fuel choice) w'
