-- ===== src/Adapters/Docker/First.antt =====
-- Which container an answer of the Docker adapter is about, and what it shows of the labels.
use homelab_evidence_mcp.Prelude.{
  ◌≡◌, refl, ap, ◌⊎◌, inl, inr, false, true, List, [], ◌∷◌, ◌++◌, none, some, Text, ascii, All,
  Bool-cases, Option-cases, arith, subst,
}
use homelab_evidence_mcp.Prelude.Table.{Table}
use homelab_evidence_mcp.Evidence.{Time}
use homelab_evidence_mcp.Adapters.Docker.{
  ContainerSummary, Outside, normalize_name, is_named, find_loop, find_container, safe_label,
  item_from, list_containers, not_found, status,
}

module _ {Regexp : Type 0} (o : Outside Regexp) where
  -- No container of the list has the name.
  abbrev pub NoneNamed : Text → List ContainerSummary → Type 0
  NoneNamed want cs = All (λ c. is_named o want c ≡ false) cs

  -- The container is the first of the list that has the name.
  pub record IsFirst (want : Text) (cs : List ContainerSummary) (ct : ContainerSummary)
      : Type 0 where
    pub before : List ContainerSummary
    pub after : List ContainerSummary
    pub place : cs ≡ before ++ ct ∷ after
    pub earlier : NoneNamed want before
    pub named : is_named o want ct ≡ true

  IsFirst-here :
      (want : Text) (ct : ContainerSummary) (cs : List ContainerSummary)
      → is_named o want ct ≡ true
      → IsFirst want (ct ∷ cs) ct
  IsFirst-here want ct cs h = record {
    before = [];
    after = cs;
    place = refl;
    earlier = tt;
    named = h;
  }

  IsFirst-later :
      (want : Text) (c ct : ContainerSummary) (cs : List ContainerSummary)
      → is_named o want c ≡ false
      → IsFirst want cs ct
      → IsFirst want (c ∷ cs) ct
  IsFirst-later want c ct cs h p = record {
    before = c ∷ p.before;
    after = p.after;
    place = ap (λ l. c ∷ l) p.place;
    earlier = (h, p.earlier);
    named = p.named;
  }

  find_loop-none :
      (want : Text) (cs : List ContainerSummary) → find_loop o want cs ≡ none → NoneNamed want cs
  unfolding find_loop
  find_loop-none want [] h = tt
  find_loop-none want (c ∷ rest) h = elim (Bool-cases (is_named o want c)) [
    | inl p ↦ ground arith
    | inr p ↦ (p, find_loop-none want rest (ground arith))
  ]

  find_loop-some :
      (want : Text) (cs : List ContainerSummary) (ct : ContainerSummary)
      → find_loop o want cs ≡ some ct
      → IsFirst want cs ct
  unfolding find_loop
  find_loop-some want [] ct h = ground arith
  find_loop-some want (c ∷ rest) ct h = elim (Bool-cases (is_named o want c)) [
    | inl p ↦
        let same : c ≡ ct = ground arith in
        subst (IsFirst want (c ∷ rest)) same (IsFirst-here want c rest p)
    | inr p ↦ IsFirst-later want c ct rest p (find_loop-some want rest ct (ground arith))
  ]

  -- Once the list of containers is there, `Status` always gives an item: that of the first
  -- container one of whose names is the wanted one, up to case, spaces and a slash in front;
  -- or, when no container has that name, the item that says so.
  pub status_lem :
      (service_id container_name : Text) (retrieved_at observed_at : Time)
      (cs : List ContainerSummary)
      → list_containers o retrieved_at ≡ inr (cs, observed_at)
      → (NoneNamed (normalize_name o container_name) cs
          × (status o service_id container_name retrieved_at
              ≡ inr (not_found o service_id container_name observed_at retrieved_at)))
        ⊎ ((ct : ContainerSummary) × (IsFirst (normalize_name o container_name) cs ct
              × (status o service_id container_name retrieved_at
                  ≡ inr (item_from o service_id ct observed_at retrieved_at))))
  unfolding status find_container
  status_lem service_id container_name retrieved_at observed_at cs h =
      let want = normalize_name o container_name in
      elim (Option-cases (find_loop o want cs)) [
        | inl e ↦ inl (find_loop-none want cs e, ground arith)
        | inr (ct, e) ↦ inr (ct, (find_loop-some want cs ct e, ground arith))
      ]

  -- Two containers that agree on everything but their labels, and on the two labels of
  -- Compose, give the same item: no other label is shown.
  pub item_from-labels :
      (service_id : Text) (ct : ContainerSummary) (others : Table Text)
      (observed_at retrieved_at : Time)
      → safe_label ct.labels (ascii "com.docker.compose.service")
        ≡ safe_label others (ascii "com.docker.compose.service")
      → safe_label ct.labels (ascii "com.docker.compose.project")
        ≡ safe_label others (ascii "com.docker.compose.project")
      → item_from o service_id ct observed_at retrieved_at
        ≡ item_from o service_id (record ct { labels = others }) observed_at retrieved_at
  unfolding item_from
  item_from-labels service_id ct others observed_at retrieved_at h k = rw (h, k) refl
