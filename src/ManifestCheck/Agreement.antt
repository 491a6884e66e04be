-- ===== src/ManifestCheck/Agreement.antt =====
-- plugin/plugintest/manifest.go: when a check reports nothing.
use herdr_client.Prelude.{
  String, ◌≡◌, refl, Bool, true, false, not, ◌&&◌, List, [], ◌∷◌, ◌++◌, map, all, contains, arith,
}
use herdr_client.Manifest.Types.{Manifest}
use herdr_client.Manifest.Validate.{Warning}
use herdr_client.Plugin.Registered.{Registered}
use herdr_client.Sorting.{sort_names, contains-sort_names, all-sort_names}
use herdr_client.ManifestCheck.{
  Parsed, unreadable, undecodable, invalid, parsed, unhandled, undeclared, undeclared_events,
  compare_startup, some_entries, check_parsed, declared_actions, declared_panes, declared_events,
  warned,
}

abbrev pub nothing {ℓ} : {A : Type ℓ} → List A → Bool
nothing [] = true
nothing (x ∷ xs) = false

nothing-append {ℓ} : {A : Type ℓ} (xs ys : List A) → nothing (xs ++ ys) ≡ (nothing xs && nothing ys)
nothing-append [] ys = refl
nothing-append (x ∷ xs) ys = refl

nothing-warned : (ws : List Warning) → nothing (map warned ws) ≡ nothing ws
nothing-warned [] = refl
nothing-warned (w ∷ ws) = refl

nothing-unhandled :
    (what : String) (registered ids : List String)
    → nothing (unhandled what registered ids) ≡ all (contains registered) ids
unfolding unhandled
nothing-unhandled what registered [] = refl
nothing-unhandled what registered (id ∷ ids) = ground (arith, nothing-unhandled what registered ids)

nothing-undeclared :
    (what : String) (declared ids : List String)
    → nothing (undeclared what declared ids) ≡ all (contains declared) ids
unfolding undeclared
nothing-undeclared what declared [] = refl
nothing-undeclared what declared (id ∷ ids) = ground (arith, nothing-undeclared what declared ids)

nothing-undeclared_events :
    (declared names : List String)
    → nothing (undeclared_events declared names) ≡ all (contains declared) names
unfolding undeclared_events
nothing-undeclared_events declared [] = refl
nothing-undeclared_events declared (name ∷ names) =
    ground (arith, nothing-undeclared_events declared names)

all-contains-sort_names :
    (ds xs : List String) → all (contains (sort_names ds)) xs ≡ all (contains ds) xs
all-contains-sort_names ds [] = refl
all-contains-sort_names ds (x ∷ xs) =
    ground (arith, all-contains-sort_names ds xs, contains-sort_names ds x)

-- the two lists hold the same names
abbrev pub same_names : List String → List String → Bool
same_names xs ys = all (contains ys) xs && all (contains xs) ys

abbrev pub equal : Bool → Bool → Bool
equal true b = b
equal false b = not b

nothing-compare_startup :
    (declared registered : Bool)
    → nothing (compare_startup declared registered) ≡ equal declared registered
nothing-compare_startup true true = refl
nothing-compare_startup true false = refl
nothing-compare_startup false true = refl
nothing-compare_startup false false = refl

-- the manifest and the registry agree
abbrev pub agrees : Manifest → List Warning → Registered → Bool
agrees m ws r =
    nothing ws
    && (same_names (declared_actions m.actions) r.actions
        && (same_names (declared_panes m.panes) r.panes
            && (same_names (declared_events m.events) r.events
                && equal (some_entries m.startup) r.startup)))

abbrev pub clean : Parsed → Registered → Bool
clean (parsed m ws) r = agrees m ws r
clean _ r = false

-- CheckManifest reports nothing if and only if the manifest is loaded without a warning, it and the
-- plugin name the same actions, the same panes and the same events, and it declares a startup entry
-- exactly if the plugin has a startup handler.
pub check_parsed-clean : (p : Parsed) (r : Registered) → nothing (check_parsed p r) ≡ clean p r
unfolding check_parsed
check_parsed-clean (parsed m ws) r = simp (
  nothing-append, nothing-warned, nothing-unhandled, nothing-undeclared, nothing-undeclared_events,
  nothing-compare_startup, all-sort_names, all-contains-sort_names,
)
check_parsed-clean unreadable r = refl
check_parsed-clean undecodable r = refl
check_parsed-clean (invalid e) r = refl
