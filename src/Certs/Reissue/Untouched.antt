-- ===== src/Certs/Reissue/Untouched.antt =====
-- A run of `Reissue` leaves the other files as they are.
use mathlib.Core.Path.{subst}
use fabric_network_builder.Prelude.{
  ℕ, ◌+◌, List, [], ◌∷◌, true, false, not, ◌≡◌, ◌≢◌, ◌⊎◌, inl, inr, refl, sym, ◌∙◌, Bytes, ℤ,
  Option, none, some, ok, All, ltb, is_nil, ap,
}
use fabric_network_builder.Prelude.Sort.{sort_by}
use fabric_network_builder.Exec.{raise, handle, ◌>>=◌}
use fabric_network_builder.Exec.Laws.{
  Any, Valid, >>=-Valid, pure-Valid, raise-Valid, if-Valid, weaken, either_way-Valid,
  for_each-Valid, All-of, All-imp,
}
use fabric_network_builder.Certs.Environment.{Machine}
use fabric_network_builder.Certs.{
  State, Action, ask, printf, CertError, failed, no_pem_data, in_file, unsupported_key,
  unsupported_ca_key, cannot_reissue, bad_days, bad_type, no_leaves, no_nodes, not_reissued,
  fuel_spent, Kind, table_head, no_targets, nothing_matched, blank_line, skipped_leaf,
}
use fabric_network_builder.Certs.Files.{Laws, kept, printf-Valid, Contents}
use fabric_network_builder.Certs.Leaves.{Leaf, discover}
use fabric_network_builder.Certs.Leaves.Issuer.{discover-Valid}
use fabric_network_builder.Certs.Reissue.{
  ReissueOptions, reissue_one, or_skip, reissue_targets, report_leaf, reissue_selected,
  reissue_leaves, reissue_found, reissue, targets, unmatched, leaf_leb, time_of, checked_kinds,
  is_selecting, checked,
}
use fabric_network_builder.Certs.Reissue.Renewed.{reissue_one-Valid}

module _ {F : Machine} (W : Laws F) (Protected : Bytes → Type 0) (fuel : ℕ) (o : ReissueOptions)
    (now : ℤ) where
  says : (l : _) → Valid (kept W Protected) Any (printf {F = F} l) (λ u. Any)
  says l = printf-Valid W Protected (λ c. Unit {0}) l

  -- A leaf whose file is not protected, where the run is no dry run.
  abbrev IsOpen : Leaf F.PublicKey F.Extension → Type 0
  IsOpen l = o.dry_run ≡ false → (p : Bytes) → Protected p → p ≢ l.cert_path

  one-Valid :
      (l : Leaf F.PublicKey F.Extension)
      → IsOpen l
      → Valid (kept W Protected) Any (reissue_one fuel o now l) (λ u. Any)
  one-Valid l safe = record {
    run = λ s p.
        (weaken (λ s i. i) (λ u s q. tt)
            (reissue_one-Valid W Protected fuel o now l (W.content s.world l.cert_path) safe)).run
          s refl;
  }

  or_skip-Valid :
      (l : Leaf F.PublicKey F.Extension) (rest : Action F ℕ) (e : CertError)
      → Valid (kept W Protected) Any rest (λ n. Any)
      → Valid (kept W Protected) Any (or_skip fuel o now l rest e) (λ n. Any)
  or_skip-Valid l rest (cannot_reissue r) h =
      >>=-Valid (says (skipped_leaf l.node l.kind r)) (λ u. h)
  or_skip-Valid l rest (failed m) h = raise-Valid _
  or_skip-Valid l rest no_pem_data h = raise-Valid _
  or_skip-Valid l rest (in_file p e) h = raise-Valid _
  or_skip-Valid l rest unsupported_key h = raise-Valid _
  or_skip-Valid l rest unsupported_ca_key h = raise-Valid _
  or_skip-Valid l rest bad_days h = raise-Valid _
  or_skip-Valid l rest (bad_type b) h = raise-Valid _
  or_skip-Valid l rest (no_leaves b) h = raise-Valid _
  or_skip-Valid l rest (no_nodes b) h = raise-Valid _
  or_skip-Valid l rest (not_reissued n) h = raise-Valid _
  or_skip-Valid l rest fuel_spent h = raise-Valid _

  reissue_targets-Valid :
      (leaves : List (Leaf F.PublicKey F.Extension)) (failures : ℕ)
      → All IsOpen leaves
      → Valid (kept W Protected) Any (reissue_targets fuel o now leaves failures) (λ n. Any)
  unfolding reissue_targets
  reissue_targets-Valid [] failures safe = pure-Valid failures (λ s p. tt)
  reissue_targets-Valid (l ∷ leaves) failures (safe, others) =
      either_way-Valid (one-Valid l safe) (λ u. reissue_targets-Valid leaves failures others)
        (λ e.
          or_skip-Valid l (reissue_targets fuel o now leaves (failures + 1)) e
            (reissue_targets-Valid leaves (failures + 1) others))

  reissue_selected-Valid :
      (selected : List (Leaf F.PublicKey F.Extension))
      → All IsOpen selected
      → Valid (kept W Protected) Any (reissue_selected fuel o now selected) (λ u. Any)
  unfolding reissue_selected
  reissue_selected-Valid selected safe =
      if-Valid (not (is_selecting o)) (λ e. says no_targets)
        (λ e.
          if-Valid (is_nil selected) (λ e. says nothing_matched)
            (λ e. >>=-Valid (says blank_line) (λ u.
              >>=-Valid (reissue_targets-Valid selected 0 safe) (λ failures.
                if-Valid (ltb 0 failures) (λ e. raise-Valid (not_reissued failures))
                  (λ e. pure-Valid tt (λ s p. tt))))))

  pub reissue_leaves-Valid :
      (leaves : List (Leaf F.PublicKey F.Extension))
      → All IsOpen (targets o now (sort_by leaf_leb leaves))
      → Valid (kept W Protected) Any (reissue_leaves fuel o now leaves) (λ u. Any)
  unfolding reissue_leaves report_leaf
  reissue_leaves-Valid leaves safe =
      if-Valid (not (is_nil (unmatched leaves o.nodes)))
        (λ e. raise-Valid (no_nodes (unmatched leaves o.nodes)))
        (λ e. >>=-Valid (says table_head) (λ u.
          >>=-Valid
            (weaken (λ s p. p) (λ u s q. tt)
              (for_each-Valid {f = report_leaf {F = F} fuel o now} {Q = λ l s. Unit {0}}
                (sort_by leaf_leb leaves) (λ l s t m q. tt) (λ l. says _)))
            (λ u. reissue_selected-Valid (targets o now (sort_by leaf_leb leaves)) safe)))

-- The time of a run.
module _ {F : Machine} where
  abbrev pub time_at : Option ℤ → State F → ℤ
  time_at none s = (F.clock s.world).0
  time_at (some now) s = now

module _ {F : Machine} (W : Laws F) (Protected : Bytes → Type 0) where
  timed-Later :
      (time : Option ℤ) (k : ℤ → Action F (Unit {0})) (s : State F)
      → Valid (kept W Protected) Any (k (time_at time s)) (λ u. Any)
      → (kept W Protected).Later s ((time_of time >>= k) s).1
  timed-Later none k s h p b protected held =
      (h.run (ask F.clock s).1 tt).0 p b protected
        (subst (λ (c : Contents). c p ≡ some b) (sym (W.clock.at s.world).0) held)
  timed-Later (some now) k s h p b protected held = (h.run s tt).0 p b protected held

  reissue_found-Later :
      (fuel : ℕ) (o : ReissueOptions) (leaves : List (Leaf F.PublicKey F.Extension)) (s : State F)
      → All
          (λ l. o.dry_run ≡ false → (p : Bytes) → Protected p → p ≢ l.cert_path)
          (targets o (time_at o.now s) (sort_by leaf_leb leaves))
      → (kept W Protected).Later s (reissue_found fuel o leaves s).1
  unfolding reissue_found
  reissue_found-Later fuel o [] s safe = λ p b h held. held
  reissue_found-Later fuel o (l ∷ leaves) s safe =
      timed-Later o.now (λ now. reissue_leaves fuel o now (l ∷ leaves)) s
        (reissue_leaves-Valid W Protected fuel o (time_at o.now s) (l ∷ leaves) safe)

open_targets :
    {PublicKey Extension : Type 0} (o : ReissueOptions) (p : Bytes)
    (leaves : List (Leaf PublicKey Extension))
    → (o.dry_run ≡ true) ⊎ All (λ l. p ≢ l.cert_path) leaves
    → All (λ l. o.dry_run ≡ false → (q : Bytes) → q ≡ p → q ≢ l.cert_path) leaves
open_targets o p leaves (inl dry) = All-of leaves (λ l e. cc (dry, e))
open_targets o p leaves (inr other) = All-imp leaves (λ l ne e q e' e''. ne (sym e' ∙ e'')) other

-- Whether Reissue succeeds or fails, a file that exists keeps its content, if the options' kinds
-- are accepted, Discover finds the leaves, and the run is a dry run or the file is not the
-- certificate of one of the leaves that are selected, at the time of the run, of those that are
-- found.
pub reissue-Untouched :
    {F : Machine} (W : Laws F) (fuel : ℕ) (o : ReissueOptions) (s t : State F) (kinds : List Kind)
    (leaves : List (Leaf F.PublicKey F.Extension)) (p b : Bytes)
    → checked_kinds o ≡ ok kinds
    → discover o.crypto_config kinds s ≡ (ok leaves, t)
    → (o.dry_run ≡ true)
      ⊎ All (λ l. p ≢ l.cert_path) (targets o (time_at o.now t) (sort_by leaf_leb leaves))
    → W.content s.world p ≡ some b
    → W.content (reissue fuel o s).1.world p ≡ some b
unfolding reissue
reissue-Untouched {F = F} W fuel o s t kinds leaves p b accepted found unselected held =
    let run : reissue fuel o s ≡ reissue_found fuel o leaves t =
      ap
        (λ r.
          handle (checked {F = F} r s)
            (λ kinds. discover o.crypto_config kinds >>= reissue_found fuel o) raise)
        accepted
      ∙ ap (λ r. handle r (reissue_found fuel o) raise) found in
    let searched : W.content t.world ≡ W.content s.world =
      subst (λ (r : _ × State F). W.content r.1.world ≡ W.content s.world) found
        ((discover-Valid W o.crypto_config kinds).run s tt).0 in
    subst (λ (r : _ × State F). W.content r.1.world p ≡ some b) (sym run)
      (reissue_found-Later W (λ q. q ≡ p) fuel o leaves t
        (open_targets o p (targets o (time_at o.now t) (sort_by leaf_leb leaves)) unselected) p b
        refl (subst (λ (c : Contents). c p ≡ some b) (sym searched) held))
