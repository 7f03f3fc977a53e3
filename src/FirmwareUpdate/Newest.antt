-- ===== src/FirmwareUpdate/Newest.antt =====
-- The firmware that is chosen, among the candidates.
use geberit_aquaclean.Prelude.{
  ℕ, Bool, true, false, not, ◌&&◌, Option, none, some, List, [], ◌∷◌, ◌++◌, append-nil,
  append_assoc, if◌then◌else◌, refl, sym, subst, arith,
}
use geberit_aquaclean.Prelude.First.{IsOrdered, IsFirst, kept-IsFirst}
use geberit_aquaclean.Api.Text.{Text}
use geberit_aquaclean.FirmwareUpdate.{
  NodeFirmware, Package, Latest, pkg_date, is_main, above, fits_variants, same_series, parsed,
  kept_if, visit_nodes, visit_package, visit_packages, get_latest_for_series_and_variant,
}

pub above-IsOrdered : IsOrdered above
unfolding above
above-IsOrdered = record { asymmetric = λ a b h. ground arith; chained = λ a b c h k. ground arith }

abbrev pub listed : Option Latest → List Latest
listed none = []
listed (some v) = v ∷ []

module _ (int_of : Text → Option ℕ) where
  -- The versions of the main nodes.
  unfoldable pub node_candidates : Option Text → List NodeFirmware → List Latest
  node_candidates date [] = []
  node_candidates date (node ∷ nodes) =
      let rest = node_candidates date nodes in
      (if is_main node.node_id then listed (parsed int_of node.rs_ts_version date) else []) ++ rest

  abbrev pub fits : Option ℕ → List ℕ → Package → Bool
  fits series variants pkg =
      pkg.is_active
      && (same_series pkg.firmware_package.series series
          && fits_variants variants pkg.firmware_package.variants)

  abbrev pub package_candidates : Package → List Latest
  package_candidates pkg =
      node_candidates (pkg_date pkg.firmware_package) pkg.firmware_package.node_firmwares

  -- The versions of the main nodes of the active packages of the series that share a variant.
  unfoldable pub candidates : Option ℕ → List ℕ → List Package → List Latest
  unfolding node_candidates
  candidates series variants [] = []
  candidates series variants (pkg ∷ packages) =
      let rest = candidates series variants packages in
      (if fits series variants pkg then package_candidates pkg else []) ++ rest

  kept_if-IsFirst :
      (values : List Latest) (best found : Option Latest)
      → IsFirst above values best
      → IsFirst above (values ++ listed found) (kept_if int_of best found)
  kept_if-IsFirst values best none h = subst (λ l. IsFirst above l best) (sym (append-nil values)) h
  kept_if-IsFirst values best (some v) h = kept-IsFirst above above-IsOrdered values best v h

  visit_node-IsFirst :
      (values : List Latest) (best found : Option Latest) (main : Bool)
      → IsFirst above values best
      → IsFirst above
          (values ++ (if main then listed found else []))
          (if main then kept_if int_of best found else best)
  visit_node-IsFirst values best found true h = kept_if-IsFirst values best found h
  visit_node-IsFirst values best found false h =
      subst (λ l. IsFirst above l best) (sym (append-nil values)) h

  visit_nodes-IsFirst :
      (date : Option Text) (nodes : List NodeFirmware) (values : List Latest) (best : Option Latest)
      → IsFirst above values best
      → IsFirst above (values ++ node_candidates date nodes) (visit_nodes int_of date nodes best)
  unfolding node_candidates visit_nodes
  visit_nodes-IsFirst date [] values best h =
      subst (λ l. IsFirst above l best) (sym (append-nil values)) h
  visit_nodes-IsFirst date (node ∷ nodes) values best h =
      let found = parsed int_of node.rs_ts_version date in
      let main = is_main node.node_id in
      let now = if main then listed found else [] in
      subst
        (λ l.
          IsFirst above l
            (visit_nodes int_of date nodes (if main then kept_if int_of best found else best)))
        (append_assoc values now (node_candidates date nodes))
        (visit_nodes-IsFirst date nodes (values ++ now) _
          (visit_node-IsFirst values best found main h))

  unless-IsFirst :
      (active series_fits variants_fit : Bool) (values new : List Latest)
      (best visited : Option Latest)
      → IsFirst above values best
      → IsFirst above (values ++ new) visited
      → IsFirst above (values ++ (if active && (series_fits && variants_fit) then new else [])) (
          if not active
          then best
          else if not series_fits
          then best
          else if not variants_fit
          then best
          else visited)
  unless-IsFirst true true true values new best visited h k = k
  unless-IsFirst true true false values new best visited h k =
      subst (λ l. IsFirst above l best) (sym (append-nil values)) h
  unless-IsFirst true false v values new best visited h k =
      subst (λ l. IsFirst above l best) (sym (append-nil values)) h
  unless-IsFirst false s v values new best visited h k =
      subst (λ l. IsFirst above l best) (sym (append-nil values)) h

  visit_packages-IsFirst :
      (series : Option ℕ) (variants : List ℕ) (packages : List Package) (values : List Latest)
      (best : Option Latest)
      → IsFirst above values best
      → IsFirst above
          (values ++ candidates series variants packages)
          (visit_packages int_of series variants packages best)
  unfolding candidates visit_packages visit_package
  visit_packages-IsFirst series variants [] values best h =
      subst (λ l. IsFirst above l best) (sym (append-nil values)) h
  visit_packages-IsFirst series variants (pkg ∷ packages) values best h =
      let fp = pkg.firmware_package in
      let now = if fits series variants pkg then package_candidates pkg else [] in
      subst
        (λ l. IsFirst above l (
          visit_packages int_of series variants packages
            (visit_package int_of series variants pkg best)))
        (append_assoc values now (candidates series variants packages))
        (visit_packages-IsFirst series variants packages (values ++ now) _ (
          unless-IsFirst pkg.is_active (same_series fp.series series)
            (fits_variants variants fp.variants) values (package_candidates pkg) best _ h
            (visit_nodes-IsFirst (pkg_date fp) fp.node_firmwares values best h)))

  -- Whatever the packages are, what is returned is a candidate than which none is newer, and nothing only
  -- where there is no candidate.
  pub get_latest_for_series_and_variant-IsFirst :
      (series : Option ℕ) (variants : List ℕ) (packages : List Package)
      → IsFirst above
          (candidates series variants packages)
          (get_latest_for_series_and_variant int_of series variants packages)
  unfolding get_latest_for_series_and_variant
  get_latest_for_series_and_variant-IsFirst series variants packages =
      visit_packages-IsFirst series variants packages [] none (unfold IsFirst in refl)
