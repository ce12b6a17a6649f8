-- ===== src/Stat/BucketLeapArray/Update.antt =====
-- A bucket of core/stat/base/bucket_leap_array.go changed in place.
use gmiter.Prelude.{
  ℕ, ◌+◌, ◌*◌, ◌/◌, ◌%◌, ◌≡◌, refl, sym, ap, ◌∙◌, ◌≢◌, some, List, [], ◌∷◌, get_elem?, set, mod64,
  arith, get_elem?-lt, get_elem?-set_self, get_elem?-set_ne, length-set, ==_refl, ==_of_ne,
  some_inj,
}
use gmiter.Stat.Event.{MetricEvent}
use gmiter.Stat.LeapArray.{BucketWrap, LeapArray}
use gmiter.Stat.LeapArray.{get as get_slot}
use gmiter.Stat.LeapArray.WellFormed.{IsAligned, IsWellFormed, Slots-get_elem?, Slots-set}
use gmiter.Stat.LeapArray.Current.{get_eq, joined, slot_count_lt}
use gmiter.Stat.MetricBucket
use gmiter.Stat.MetricBucket.{MetricBucket, is_unknown}
use gmiter.Stat.MetricBucket.Laws
use gmiter.Stat.BucketLeapArray.{BucketLeapArray, update}
use gmiter.Stat.BucketLeapArray.Counting.{some-joined}
use gmiter.Stat.BucketLeapArray.History.{same_factor, Addition, recorded}
use gmiter.Stat.BucketLeapArray.Represents.{Stands, Kept, Represents}
use mathlib.Core.Path.{subst}
use native.Mathlib.Nat.{zero-add}
use native.Mathlib.Decide.{ℕ_discrete}

module _ (bla : BucketLeapArray) (i : ℕ) (w : BucketWrap MetricBucket)
    (f : MetricBucket → MetricBucket) (wf : IsWellFormed bla.window)
    (held : get_slot bla.window.slots i ≡ some w) where
  abbrev changed : LeapArray MetricBucket
  changed = record bla.window {
    slots = set bla.window.slots i (some (record w { value = f w.value }));
  }

  pub update_eq : update bla i f ≡ record { window = changed }
  unfolding update
  update_eq = rw (held, update) refl

  held_elem : get_elem? bla.window.slots i ≡ some (some w)
  held_elem = some-joined _ _ (sym (get_eq bla.window.slots i (slot_count_lt bla.window wf)) ∙ held)

  pub changed-IsWellFormed : IsWellFormed changed
  changed-IsWellFormed =
      let (v, at, a) =
        Slots-get_elem? bla.window.bucket_length bla.window.sample_count 0 bla.window.slots i
          wf.aligned (get_elem?-lt bla.window.slots i held_elem) in
      let same : v ≡ w = some_inj _ _ (some_inj _ _ (sym at ∙ held_elem)) in
      record {
        positive_length = wf.positive_length;
        positive_count = wf.positive_count;
        spans = wf.spans;
        short = wf.short;
        slot_count = length-set bla.window.slots i _ ∙ wf.slot_count;
        aligned =
            Slots-set _ _ 0 bla.window.slots i (record w { value = f w.value }) wf.aligned
              (subst
                (λ x.
                  IsAligned bla.window.bucket_length bla.window.sample_count (0 + i)
                    (record x { value = f w.value }))
                same a);
      }

  changed-get_self : get_slot changed.slots i ≡ some (record w { value = f w.value })
  unfolding joined
  changed-get_self =
      get_eq changed.slots i (slot_count_lt changed changed-IsWellFormed)
      ∙ ap joined
          (get_elem?-set_self bla.window.slots i _ (get_elem?-lt bla.window.slots i held_elem))

  changed-get_ne : (j : ℕ) → j ≢ i → get_slot changed.slots j ≡ get_slot bla.window.slots j
  changed-get_ne j ne =
      get_eq changed.slots j (slot_count_lt changed changed-IsWellFormed)
      ∙ ap joined (get_elem?-set_ne bla.window.slots _ (λ e. ne (sym e)))
      ∙ sym (get_eq bla.window.slots j (slot_count_lt bla.window wf))

  changed-Stands : (j start : ℕ) → Stands bla.window j start → Stands changed j start
  changed-Stands j start (v, at, s) = elim (ℕ_discrete j i) [
    | yes e ↦
        let same : v ≡ w = some_inj _ _ (sym at ∙ ap (get_slot bla.window.slots) e ∙ held) in
        (
          _,
          ap (get_slot changed.slots) e ∙ changed-get_self,
          ap (λ x. x.bucket_start) (sym same) ∙ s,
        )
    | no ne ↦ (v, changed-get_ne j ne ∙ at, s)
  ]

  changed-Kept :
      (now : ℕ) (history : List Addition) → Kept bla.window now history → Kept changed now history
  changed-Kept now [] k = tt
  changed-Kept now (r ∷ history) (past, there, k) =
      (past, λ h. changed-Stands _ _ (there h), changed-Kept now history k)

  -- The bucket of `now` with one addition more.
  module _ (now : ℕ) (history : List Addition) (event : MetricEvent) (count : ℕ)
      (r : Represents bla.window now history)
      (at : i ≡ now / bla.window.bucket_length % bla.window.sample_count)
      (stands : w.bucket_start ≡ now / bla.window.bucket_length * bla.window.bucket_length)
      (adds : f ≡ (λ b. MetricBucket.add b event count)) where
    abbrev newest : Addition
    newest = record { time = now; event = event; count = count }

    changed-full :
        (j : ℕ) (v : BucketWrap MetricBucket)
        → get_slot changed.slots j ≡ some v
        → Laws.IsWellFormed v.value
    changed-full j v e = elim (ℕ_discrete j i) [
      | yes same ↦
          subst (λ x. Laws.IsWellFormed x.value)
            (some_inj _ _ (sym changed-get_self ∙ ap (get_slot changed.slots) (sym same) ∙ e))
            (rw adds (Laws.add-IsWellFormed w.value (r.full i w held) event count))
      | no ne ↦ r.full j v (sym (changed-get_ne j ne) ∙ e)
    ]

    add-counted :
        (other : MetricEvent)
        → MetricBucket.get (MetricBucket.add w.value event count) other
          ≡ recorded bla.window.bucket_length w.bucket_start other (newest ∷ history) % mod64
    unfolding recorded
    add-counted other =
        Laws.get-add w.value (r.full i w held) event other count
        ∙ rw (← stands, ==_refl w.bucket_start)
            (ground (arith, r.counted i w held event, r.counted i w held other))

    -- A bucket of another slot starts at another time.
    elsewhere :
        (j : ℕ) (v : BucketWrap MetricBucket)
        → get_slot bla.window.slots j ≡ some v
        → j ≢ i
        → now / bla.window.bucket_length * bla.window.bucket_length ≢ v.bucket_start
    elsewhere j v e ne starts =
        let there : get_elem? bla.window.slots j ≡ some (some v) =
          some-joined _ _ (sym (get_eq bla.window.slots j (slot_count_lt bla.window wf)) ∙ e) in
        let (u, found, (q, start, index, _)) =
          Slots-get_elem? bla.window.bucket_length bla.window.sample_count 0 bla.window.slots j
            wf.aligned (get_elem?-lt bla.window.slots j there) in
        let same : u ≡ v = some_inj _ _ (some_inj _ _ (sym found ∙ there)) in
        let factor : q ≡ now / bla.window.bucket_length =
          same_factor bla.window.bucket_length _ _ wf.positive_length
            (sym start ∙ ap (λ x. x.bucket_start) same ∙ sym starts) in
        ne (sym (zero-add j) ∙ sym index ∙ ap (λ n. n % bla.window.sample_count) factor ∙ sym at)

    changed-counted :
        (j : ℕ) (v : BucketWrap MetricBucket)
        → get_slot changed.slots j ≡ some v
        → (other : MetricEvent)
        → MetricBucket.get v.value other
          ≡ recorded bla.window.bucket_length v.bucket_start other (newest ∷ history) % mod64
    unfolding recorded
    changed-counted j v e other = elim (ℕ_discrete j i) [
      | yes same ↦
          subst
            (λ x.
              MetricBucket.get x.value other
              ≡ recorded bla.window.bucket_length x.bucket_start other (newest ∷ history) % mod64)
            (some_inj _ _ (sym changed-get_self ∙ ap (get_slot changed.slots) (sym same) ∙ e))
            (rw adds (add-counted other))
      | no ne ↦
          let before : get_slot bla.window.slots j ≡ some v = sym (changed-get_ne j ne) ∙ e in
          rw (==_of_ne _ _ (elsewhere j v before ne), zero-add) (r.counted j v before other)
    ]

    pub changed-Represents : Represents changed now (newest ∷ history)
    changed-Represents = record {
      well_formed = changed-IsWellFormed;
      kept = (
        omega arith,
        λ _. changed-Stands _ _ (rw (← at) (w, held, stands)),
        changed-Kept now history r.kept,
      );
      full = changed-full;
      counted = changed-counted;
    }
