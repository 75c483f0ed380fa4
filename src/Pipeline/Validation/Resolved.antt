-- ===== src/Pipeline/Validation/Resolved.antt =====
-- The direct references of what the passes accept.
use gb_industrial_energy_dat.Prelude.{◌≡◌, refl, ◌∙◌, true, List, all, Result, ok}
use gb_industrial_energy_dat.Pipeline.Validation.{Candidate, Raised, Outside, run_pass}
use gb_industrial_energy_dat.Pipeline.Validation.References.{
  valid_values, assignment_references, point_references, direct_references,
}
use gb_industrial_energy_dat.Pipeline.Validation.Intervals.{
  context_of, relationship_rule, interval_relationships,
}
use gb_industrial_energy_dat.Pipeline.Validation.Overlaps.{effective_overlaps}
use gb_industrial_energy_dat.Pipeline.Validation.Schema.{opaque_reuse}
use gb_industrial_energy_dat.Pipeline.Validation.Local.{local_rules}
use gb_industrial_energy_dat.Pipeline.Validation.Validate.{rules}
use gb_industrial_energy_dat.Pipeline.Validation.Passes.{run_pass-AllExtend}
use gb_industrial_energy_dat.Pipeline.Validation.Rules.{gives, gives_next}
use gb_industrial_energy_dat.Pipeline.Validation.Parents.{
  run_pass-Spares, refers, run_pass-Requires, AllExtend-refers,
}
use gb_industrial_energy_dat.Pipeline.Validation.Referred.{
  assignment-Spares, point-Spares, relationship-Spares, assignment_named, contract_named,
  meter_named,
}

module _ {Value Number : Type 0} (outside : Outside Value Number) where
  -- the keys of the accepted parents
  abbrev customers_of : List (Candidate Value) → Result Raised (List Value)
  customers_of cs = valid_values outside "customer_master" "customer_natural_id" cs

  abbrev sites_of : List (Candidate Value) → Result Raised (List Value)
  sites_of cs = valid_values outside "industrial_site_master" "site_natural_id" cs

  abbrev points_of : List (Candidate Value) → Result Raised (List Value)
  points_of cs = valid_values outside "delivery_point_assignment" "delivery_point_natural_id" cs

  -- what the accepted children name
  pub record Resolved (customers sites points : List Value) (cs : List (Candidate Value))
      : Type 0 where
    pub assignment_customers :
        all (refers outside "delivery_point_assignment" "customer_natural_id" customers) cs ≡ true
    pub assignment_sites :
        all (refers outside "delivery_point_assignment" "site_natural_id" sites) cs ≡ true
    pub contract_points :
        all (refers outside "contract_terms" "delivery_point_natural_id" points) cs ≡ true
    pub contract_customers :
        all (refers outside "contract_terms" "customer_natural_id" customers) cs ≡ true
    pub meter_points :
        all (refers outside "revenue_meter_assignment" "delivery_point_natural_id" points) cs ≡ true

  -- the parents are accepted, and the children name them
  pub record IsResolved (cs : List (Candidate Value)) : Type 0 where
    pub customers : List Value
    pub sites : List Value
    pub points : List Value
    pub accepted_customers : customers_of cs ≡ ok customers
    pub accepted_sites : sites_of cs ≡ ok sites
    pub accepted_points : points_of cs ≡ ok points
    pub resolved : Resolved customers sites points cs

  direct_references-IsResolved :
      (cs ds : List (Candidate Value)) → direct_references outside cs ≡ ok ds → IsResolved ds
  unfolding direct_references
  direct_references-IsResolved cs ds h =
      gives_next (IsResolved ds) (customers_of cs) _ ds h (λ customers ec h.
        gives_next (IsResolved ds) (sites_of cs) _ ds h (λ sites es h.
          let first = assignment_references outside customers sites in
          gives_next (IsResolved ds) (run_pass first cs) _ ds h (λ mid em h.
            gives_next (IsResolved ds) (points_of mid) _ ds h (λ points ep h.
              let second = point_references outside customers points in
              let later = run_pass-AllExtend second mid ds h in
              record {
                customers = customers;
                sites = sites;
                points = points;
                accepted_customers =
                    run_pass-Spares outside second "customer_master" "customer_natural_id" mid ds
                      (point-Spares outside customers points "customer_master" refl refl) h
                    ∙ run_pass-Spares outside first "customer_master" "customer_natural_id" cs mid
                        (assignment-Spares outside customers sites "customer_master" refl) em
                    ∙ ec;
                accepted_sites =
                    run_pass-Spares outside second "industrial_site_master" "site_natural_id" mid ds
                      (point-Spares outside customers points "industrial_site_master" refl refl) h
                    ∙ run_pass-Spares outside first "industrial_site_master" "site_natural_id" cs
                        mid
                        (assignment-Spares outside customers sites "industrial_site_master" refl) em
                    ∙ es;
                accepted_points =
                    run_pass-Spares outside second "delivery_point_assignment"
                      "delivery_point_natural_id" mid ds
                      (point-Spares outside customers points "delivery_point_assignment" refl refl)
                      h
                    ∙ ep;
                resolved = record {
                  assignment_customers =
                      AllExtend-refers outside "delivery_point_assignment" "customer_natural_id"
                        customers later
                        (run_pass-Requires outside first "delivery_point_assignment"
                          "customer_natural_id" customers cs mid
                          (record {
                            required = λ row c is js here e clean.
                                (assignment_named outside customers sites row c is js here e
                                  clean).0;
                          })
                          em);
                  assignment_sites =
                      AllExtend-refers outside "delivery_point_assignment" "site_natural_id" sites
                        later
                        (run_pass-Requires outside first "delivery_point_assignment"
                          "site_natural_id" sites cs mid
                          (record {
                            required = λ row c is js here e clean.
                                (assignment_named outside customers sites row c is js here e
                                  clean).1;
                          })
                          em);
                  contract_points =
                      run_pass-Requires outside second "contract_terms" "delivery_point_natural_id"
                        points mid ds
                        (record {
                          required = λ row c is js here e clean.
                              (contract_named outside customers points row c is js here e clean).0;
                        })
                        h;
                  contract_customers =
                      run_pass-Requires outside second "contract_terms" "customer_natural_id"
                        customers mid ds
                        (record {
                          required = λ row c is js here e clean.
                              (contract_named outside customers points row c is js here e clean).1;
                        })
                        h;
                  meter_points =
                      run_pass-Requires outside second "revenue_meter_assignment"
                        "delivery_point_natural_id" points mid ds
                        (record { required = meter_named outside customers points }) h;
                };
              }))))

  interval_relationships-IsResolved :
      (cs ds : List (Candidate Value))
      → interval_relationships outside cs ≡ ok ds
      → IsResolved cs
      → IsResolved ds
  unfolding interval_relationships
  interval_relationships-IsResolved cs ds h k =
      gives_next (IsResolved ds) (context_of outside cs) _ ds h (λ context ec h.
        let rule = relationship_rule outside context in
        let later = run_pass-AllExtend rule cs ds h in
        record {
          customers = k.customers;
          sites = k.sites;
          points = k.points;
          accepted_customers =
              run_pass-Spares outside rule "customer_master" "customer_natural_id" cs ds
                (relationship-Spares outside context "customer_master" refl refl) h
              ∙ k.accepted_customers;
          accepted_sites =
              run_pass-Spares outside rule "industrial_site_master" "site_natural_id" cs ds
                (relationship-Spares outside context "industrial_site_master" refl refl) h
              ∙ k.accepted_sites;
          accepted_points =
              run_pass-Spares outside rule "delivery_point_assignment" "delivery_point_natural_id"
                cs ds (relationship-Spares outside context "delivery_point_assignment" refl refl) h
              ∙ k.accepted_points;
          resolved = record {
            assignment_customers =
                AllExtend-refers outside _ _ k.customers later k.resolved.assignment_customers;
            assignment_sites =
                AllExtend-refers outside _ _ k.sites later k.resolved.assignment_sites;
            contract_points =
                AllExtend-refers outside _ _ k.points later k.resolved.contract_points;
            contract_customers =
                AllExtend-refers outside _ _ k.customers later k.resolved.contract_customers;
            meter_points = AllExtend-refers outside _ _ k.points later k.resolved.meter_points;
          };
        })

  -- If the passes after the detection of duplicates give candidates, then among those, each accepted
  -- delivery-point assignment names a customer and a site, and each accepted contract a delivery point and a
  -- customer, and each accepted meter assignment a delivery point, that some accepted record of the
  -- parent's dataset has: none rests on a quarantined parent.
  pub rules-IsResolved : (cs ds : List (Candidate Value)) → rules outside cs ≡ ok ds → IsResolved ds
  unfolding rules
  rules-IsResolved cs ds h =
      let P = IsResolved ds in
      gives P (run_pass (opaque_reuse outside cs) cs) _ ds h (λ a ea h.
        gives P (run_pass (local_rules outside) a) _ ds h (λ b eb h.
          gives P (direct_references outside b) _ ds h (λ c ec h.
            gives P (effective_overlaps outside c) _ ds h (λ d ed h.
              gives P (direct_references outside d) _ ds h (λ e ee h.
                interval_relationships-IsResolved e ds h (direct_references-IsResolved d e ee))))))
