-- ===== src/Examples/Starts.antt =====
-- A start of the program that fails half-way, and users in a JSON of their own, on concrete inputs.
use Prim.Native.Nat.{zero, suc}
use Prim.Native.Char.{code}
use dra_driver_ovsdpdk_upstr.Base.{
  ℕ, String, ◌≡◌, refl, ap, false, Option, none, some, List, [], ◌∷◌, ℤ, pos, negsuc, ok, msg,
  nat_eq, if◌then◌else◌, arith, inr, Error,
}
use dra_driver_ovsdpdk_upstr.Api.{string, UserGroupId}
use dra_driver_ovsdpdk_upstr.Api.Json.{
  Json, ReadsBack, selected, marshal_json, unmarshal_json, unmarshal-marshal,
}
use dra_driver_ovsdpdk_upstr.Command.{Flags, Parts, context_done}
use dra_driver_ovsdpdk_upstr.Command.Options.{Flag, PFlag}
use dra_driver_ovsdpdk_upstr.Command.App.{RestConfig, Libraries, App, new_app, main}
use dra_driver_ovsdpdk_upstr.Command.App.Ended.{
  StartNothing, Outcome, stopped, parsed, after_parse, RunsApp, main_ends_what_it_starts,
}
use dra_driver_ovsdpdk_upstr.Command.Cleanup.{Part, ovs_client, manager, driver, Promises, Keeps}

abbrev World : Type 0
World = List Part

abbrev end_last : World → World
end_last [] = []
end_last (p ∷ w) = w

-- The driver does not start.
abbrev parts : Parts World
parts = record {
  notify_context = λ w. w;
  stop_notify = λ w. w;
  mkdir_all = λ p w. (none, w);
  new_ovs_client = λ d w. (none, ovs_client ∷ w);
  close_ovs_client = end_last;
  new_cdi = λ d w. (none, w);
  new_manager = λ w. (none, manager ∷ w);
  stop_all = end_last;
  new_device_state = λ w. w;
  new_driver = λ c w. (some (msg "no kubelet"), w);
  stop_driver = end_last;
  setup_policy_controller = λ n ns w. (none, w);
  setup_config_controller = λ n w. (none, w);
  wait = λ w. (context_done, w);
  cancel = λ e w. w;
  cause = λ w. (none, w);
  is_canceled = λ e. false;
}

end_last-cons : (p : Part) (w rest : World) → w ≡ p ∷ rest → end_last w ≡ rest
end_last-cons p w rest e = ap end_last e

parts-Promises : Promises (λ w. w) parts
parts-Promises = record {
  notify_context = λ w. refl;
  stop_notify = λ w. refl;
  mkdir_all = λ p w. refl;
  new_ovs_client = λ d w. (λ e. refl, λ x e. absurd (cc e));
  close_ovs_client = end_last-cons ovs_client;
  new_cdi = λ d w. refl;
  new_manager = λ w. (λ e. refl, λ x e. absurd (cc e));
  stop_all = end_last-cons manager;
  new_device_state = λ w. refl;
  new_driver = λ c w. (λ e. absurd (cc e), λ x e. refl);
  stop_driver = end_last-cons driver;
  setup_policy_controller = λ n ns w. refl;
  setup_config_controller = λ n w. refl;
  wait = λ w. refl;
  cancel = λ e w. refl;
  cause = λ w. refl;
}

abbrev flags : Flags
flags = record {
  node_name = "node-1";
  namespace = "default";
  config_name = "default";
  cdi_root = "/var/run/cdi";
  kubelet_plugins_directory_path = "/var/lib/kubelet/plugins";
  ovs_run_dir = "/var/run/openvswitch";
  enable_device_metadata = false;
}

-- Numbers stand for the floating-point numbers.
abbrev config : RestConfig ℕ (Unit {0})
config = record { qps = 0; burst = pos 0; others = tt }

abbrev libs : Libraries World ℕ ℕ (Unit {0}) (Unit {0}) (Unit {0})
libs = record {
  float32 = λ n. n;
  apply_logging = λ w. (none, w);
  set_logger = λ w. w;
  in_cluster_config = λ w. (inr config, w);
  new_for_config = λ cfg w. (inr tt, w);
  new_manager = λ cfg opts w. (inr tt, w);
  report = λ e w. w;
}

libs-StartNothing : StartNothing (λ w. w) libs
libs-StartNothing = record {
  apply_logging = λ w. refl;
  set_logger = λ w. refl;
  in_cluster_config = λ w. refl;
  new_for_config = λ cfg w. refl;
  new_manager = λ cfg opts w. refl;
  report = λ e w. refl;
}

-- A command line that has the flags and nothing else, or is empty.
abbrev parse : List (Flag ℕ String) → List String → World → Outcome ℕ × World
parse declared [] w = (stopped (some (msg "node-name is required")), w)
parse declared (_ ∷ left) w = (
  parsed
      (record {
        flags = flags;
        kubelet_registrar_directory_path = "/var/lib/kubelet/plugins_registry";
        kube_client_config = record { kube_api_qps = 5; kube_api_burst = pos 10 };
      })
      left,
  w,
)

abbrev run_app : App World ℕ String → List String → World → Option Error × World
run_app app args w = after_parse (λ v. v) app (parse app.flags args w)

run_app-RunsApp : RunsApp (λ w. w) run_app
run_app-RunsApp = record { parse = parse; parse-Keeps = parse-kept; runs = λ app args w. refl }
  where
    parse-kept :
        (declared : List (Flag ℕ String)) (args : List String)
        → Keeps (λ w. w) (parse declared args)
    parse-kept declared [] w = refl
    parse-kept declared (_ ∷ left) w = refl

abbrev logging : List (PFlag String)
logging =
    record { name = "log-text-split-stream"; usage = "Split the stream."; value = "false" } ∷ []

main_ends_what_it_starts_example :
    (main libs run_app
      (new_app libs (λ k m. parts) 5 logging "gates" [])
      ("--node-name=n1" ∷ [])
      []).1
    ≡ []
main_ends_what_it_starts_example =
    main_ends_what_it_starts (λ w. w) libs libs-StartNothing (λ k m. parts) (λ k m. parts-Promises)
      5 logging "gates" [] run_app run_app-RunsApp ("--node-name=n1" ∷ []) []

-- Numbers as rows of "1", negative ones after "-"; a text begins with a quote.
ones : ℕ → String
ones zero = ""
ones (suc n) = String.◌∷◌ "1" (ones n)

count : String → ℕ
count String.[] = 0
count (String.◌∷◌ c s) = suc (count s)

read_int : String → Option ℤ
unfolding count
read_int String.[] = some (pos 0)
read_int (String.◌∷◌ c s) =
    if nat_eq (code c) b'"'
    then none
    else if nat_eq (code c) b'-'
    then some (negsuc (count s))
    else some (pos (suc (count s)))

read_text : String → Option String
read_text String.[] = none
read_text (String.◌∷◌ c s) = some s

write_int : ℤ → String
unfolding ones
write_int (pos n) = ones n
write_int (negsuc n) = String.◌∷◌ "-" (ones n)

count-ones : (n : ℕ) → count (ones n) ≡ n
unfolding count ones
count-ones zero = refl
count-ones (suc n) = ap suc (count-ones n)

read-write : (n : ℤ) → read_int (write_int n) ≡ some n
unfolding read_int write_int ones
read-write (pos zero) = refl
read-write (pos (suc n)) = ap (λ m. some (pos (suc m))) (count-ones n)
read-write (negsuc n) = ap (λ m. some (negsuc m)) (count-ones n)

abbrev quote : String → String
quote s = String.◌∷◌ "\"" s

abbrev json : Json
json = record {
  marshal_int = write_int;
  marshal_string = quote;
  unmarshal_int32 = read_int;
  unmarshal_string = read_text;
}

json-ReadsBack : ReadsBack json
unfolding read_int read_text
json-ReadsBack = record { int = λ n range. read-write n; text = λ s. refl; quoted = λ s. refl }

-- A user whose name is a number.
abbrev user : UserGroupId
user = record { kind = string; int_val = pos 0; str_val = "107" }

unmarshal-marshal_example : unmarshal_json json (marshal_json json user) ≡ ok (selected string user)
unmarshal-marshal_example = unmarshal-marshal json user json-ReadsBack (omega arith)
