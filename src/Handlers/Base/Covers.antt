-- ===== src/Handlers/Base/Covers.antt =====
-- Dependencies that are resolved: each has an entry in the list of migrated resources, so the
-- lookups that a handler makes for them raise nothing.
use sunbeam_migrate.Prelude.{
  String, ◌≡◌, true, Bool-cases, inl, inr, Option, List, [], ◌∷◌, ◌++◌, All, set?,
}
use sunbeam_migrate.Config.{Config}
use sunbeam_migrate.Exec.{ok}
use sunbeam_migrate.Handlers.Interface.{Resource, MigratedResource}
use sunbeam_migrate.Handlers.Base.{
  text_of, reported, report_identity_dependencies, identity_kwarg, get_identity_build_kwargs,
  get_associated_resource_destination_id,
}

-- The lookup of the resource succeeds.
abbrev pub Resolves : List MigratedResource → String → String → Type 0
Resolves deps t i = (d : String) × (get_associated_resource_destination_id t i deps ≡ ok d)

abbrev pub Covers : List MigratedResource → List Resource → Type 0
Covers deps rs = All (λ r. Resolves deps r.resource_type r.source_id) rs

pub All-append_split {ℓ} :
    {A : Type ℓ} (P : A → Type 0) (xs ys : List A) → All P (xs ++ ys) → All P xs × All P ys
All-append_split P [] ys h = (tt, h)
All-append_split P (x ∷ xs) ys h = let (hx, hy) = All-append_split P xs ys h.1 in ((h.0, hx), hy)

pub Covers-reported :
    (deps : List MigratedResource) (t : String) (x : Option String)
    → Covers deps (reported t x)
    → set? x ≡ true
    → Resolves deps t (text_of x)
Covers-reported deps t x c h = let c' = rw h at c in c'.0

identity_kwarg-ok :
    (deps : List MigratedResource) (t key : String) (x : Option String)
    → Covers deps (reported t x)
    → (k : List (String × String)) × (identity_kwarg t key x deps ≡ ok k)
unfolding identity_kwarg
identity_kwarg-ok deps t key x c = elim (Bool-cases (set? x)) [
  | inl is_set ↦ let (d, e) = Covers-reported deps t x c is_set in ((key, d) ∷ [], rw is_set (rw e))
  | inr unset ↦ ([], rw unset)
]

-- Where the reported dependencies are resolved, the identity arguments are built.
pub identity_kwargs-ok :
    (conf : Config) (rs : List Resource) (deps : List MigratedResource)
    → (project_key user_key : String) (project_id user_id : Option String)
    → Covers deps (report_identity_dependencies conf rs project_id user_id)
    → Covers deps rs
      × ((k : List (String × String)) × (get_identity_build_kwargs conf project_key user_key deps
              project_id user_id
            ≡ ok k))
unfolding report_identity_dependencies get_identity_build_kwargs
identity_kwargs-ok conf rs deps pk uk p u c = elim (Bool-cases conf.multitenant_mode) [
  | inr off ↦ let c' : Covers deps rs = rw off at c in (c', ([], rw off))
  | inl on ↦
      let c' : Covers deps ((rs ++ reported "project" p) ++ reported "user" u) = rw on at c in
      let (left, cu) = All-append_split _ (rs ++ reported "project" p) (reported "user" u) c' in
      let (cr, cp) = All-append_split _ rs (reported "project" p) left in
      let (kp, ep) = identity_kwarg-ok deps "project" pk p cp in
      let (ku, eu) = identity_kwarg-ok deps "user" uk u cu in
      (cr, (kp ++ ku, rw on (rw ep (rw eu))))
]
