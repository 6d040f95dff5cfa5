-- ===== src/Tests/Depth.antt =====
-- Depths of calls: a subnet with its network, and a network with a member.
use mathlib.Core.Path.{subst}
use sunbeam_migrate.Prelude.{
  ℕ, suc, String, ◌≡◌, refl, ap, true, false, Bool-cases, inl, inr, Option, none, some, [], ◌∷◌,
  ◌==◌, ◌<◌, All, arith, if◌then◌else◌,
}
use sunbeam_migrate.Exec.{ok}
use sunbeam_migrate.Exec.Returns.{Returns}
use sunbeam_migrate.Exec.Same.{Same, Same-refl}
use sunbeam_migrate.Handlers.Interface.{State, Request}
use sunbeam_migrate.Handlers.Base.{dependency}
use sunbeam_migrate.Handlers.Factory.{registry_get, migration_handlers, get_migration_handler}
use sunbeam_migrate.Handlers.Factory.Loaded.{get_migration_handler-Loaded}
use sunbeam_migrate.Handlers.Common.{get_or_raise}
use sunbeam_migrate.Handlers.Neutron.Subnet.{subnet_handler, subnet_associated, subnet_dependencies}
use sunbeam_migrate.Handlers.Neutron.Network.{
  network_handler, network_associated, network_members, network_dependencies, network_perform,
  network_kwargs,
}
use sunbeam_migrate.Manager.DryRun.{dry_run_migration}
use sunbeam_migrate.Manager.DryRun.Cycle.{Unmigrated, both, too_deep, dry_run_migration-cycle}
use sunbeam_migrate.Manager.Perform.{perform_individual_migration}
use sunbeam_migrate.Manager.Depth.{Below, IsRank}
use sunbeam_migrate.Manager.Depth.Run.{perform-Same}
use sunbeam_migrate.Manager.Lookup.{latest, classify}
use sunbeam_migrate.Exec.Succeeds.{Succeeds}
use sunbeam_migrate.Manager.Progress.{Completed, perform-Succeeds}
use sunbeam_migrate.Tests.World.{conf, clouds, env, load, start, subnet_path}
use sunbeam_migrate.Tests.Database.{newest_first, backend-IsBackend}
use sunbeam_migrate.Db.Api.{get_migrations}
use sunbeam_migrate.Handlers.Sdk.{entry_get}

-- Subnets rank above everything else.
abbrev rank_of : Option String → ℕ
rank_of none = 0
rank_of (some path) = if path == subnet_path then 1 else 0

abbrev rank : String → String → ℕ
rank t i = rank_of (registry_get t migration_handlers)

network-rank : (i : String) → rank "network" i ≡ 0
unfolding registry_get migration_handlers
network-rank i = refl

subnet-rank : (i : String) → rank "subnet" i ≡ 1
unfolding registry_get migration_handlers
subnet-rank i = refl

subnet-reported :
    (i : String)
    → Returns (All (Below rank 1)) ((subnet_handler conf clouds).get_associated_resources i)
unfolding subnet_handler subnet_associated subnet_dependencies get_or_raise entry_get registry_get
    migration_handlers
subnet-reported i = record {
  holds = λ s {a} e.
      let same : dependency "network" "net" ∷ [] ≡ a = cc e in
      subst (All (Below rank 1)) same (omega arith, tt);
}

network-reported :
    (n : ℕ) (i : String)
    → Returns (All (Below rank n)) ((network_handler conf clouds).get_associated_resources i)
unfolding network_handler network_associated network_dependencies get_or_raise
network-reported n i = record {
  holds = λ s {a} e. let same : [] ≡ a = cc e in subst (All (Below rank n)) same tt;
}

load-IsRank : IsRank load rank
unfolding subnet_handler network_handler
load-IsRank = record {
  reported = λ t i {h} found.
      let l = get_migration_handler-Loaded load (some t) found in
      elim (Bool-cases (l.path == subnet_path)) [
        | inl is_subnet ↦ rw (l.is_load, l.registered, is_subnet) (subnet-reported i)
        | inr other ↦ rw (l.is_load, l.registered, other) (network-reported 0 i)
      ];
  requested = λ t i {h} found self other agree deps.
      let l = get_migration_handler-Loaded load (some t) found in
      elim (Bool-cases (l.path == subnet_path)) [
        | inl is_subnet ↦ rw (l.is_load, is_subnet) (Same-refl _)
        | inr different ↦ rw (l.is_load, different) (Same-refl _)
      ];
}

abbrev subnet_request : Request
subnet_request = record {
  resource_type = "subnet";
  resource_id = "sub";
  cleanup_source = false;
  include_dependencies = true;
  include_members = false;
  dry_run = false;
}

low : suc (rank "subnet" "sub") < 3
low = let one = subnet-rank "sub" in omega arith

high : suc (rank "subnet" "sub") < 1000
high = let one = subnet-rank "sub" in omega arith

perform-Same_example :
    Same
      (perform_individual_migration env 3 subnet_request)
      (perform_individual_migration env 1000 subnet_request)
perform-Same_example = perform-Same env rank load-IsRank 3 1000 subnet_request refl low high

-- The network "net" with its member "sub", which is on "net".
network_new : Unmigrated env start.db "network" "net" []
unfolding get_migration_handler registry_get migration_handlers network_handler network_associated
    network_dependencies get_or_raise latest get_migrations newest_first classify
network_new = record {
  handler = network_handler conf clouds;
  loaded = refl;
  named = refl;
  dependencies = [];
  reports = λ w. refl;
  migrated = [];
  sorted = refl;
  new = refl;
}

subnet_new : Unmigrated env start.db "subnet" "sub" (dependency "network" "net" ∷ [])
unfolding get_migration_handler registry_get migration_handlers subnet_handler subnet_associated
    subnet_dependencies get_or_raise entry_get latest get_migrations newest_first classify
subnet_new = record {
  handler = subnet_handler conf clouds;
  loaded = refl;
  named = refl;
  dependencies = dependency "network" "net" ∷ [];
  reports = λ w. refl;
  migrated = [];
  sorted = refl;
  new = refl;
}

net_contains :
    (w : ℕ)
    → network_new.handler.get_member_resources "net" w ≡ (ok (dependency "subnet" "sub" ∷ []), w)
unfolding network_new network_handler network_members get_or_raise
net_contains w = refl

dry_run_migration-cycle_example :
    dry_run_migration env 100 (both subnet_request "network" "net") start ≡ too_deep start
dry_run_migration-cycle_example =
    dry_run_migration-cycle env start subnet_request "network" "net" "subnet" "sub" [] []
      network_new subnet_new net_contains 100

abbrev network_request : Request
network_request = record subnet_request { resource_type = "network"; resource_id = "net" }

network_works :
    (t : State ℕ)
    → Succeeds
        (λ d u. u.db ≡ t.db)
        ((network_handler conf clouds).perform_individual_migration
          (perform_individual_migration env 2)
          "net"
          [])
        t
unfolding network_handler network_perform network_kwargs get_or_raise entry_get
network_works t = record {
  value = "new";
  final = record t { world = suc t.world };
  runs = refl;
  holds = refl;
}

perform-Succeeds_example :
    Succeeds Completed (perform_individual_migration env 3 network_request) start
unfolding network_new
perform-Succeeds_example =
    perform-Succeeds env 2 network_new.handler network_request start network_new.loaded
      (λ w. ap (λ r. r.0) (network_new.reports w)) network_works backend-IsBackend refl refl refl
      refl network_new.new
