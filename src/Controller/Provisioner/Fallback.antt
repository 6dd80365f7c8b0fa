-- ===== src/Controller/Provisioner/Fallback.antt =====
-- Which candidates `launchWithFallback` tries, and why it stops.
use mathlib.Core.List.{append_assoc}
use cloud_burst_controller.Common.{
  ◌≢◌, str_eq, eq_iff, ◌≡◌, refl, sym, ap, ◌∙◌, ◌⊎◌, inl, inr, String, true, false, some, List, [],
  ◌∷◌, ◌++◌, ℕ, All, Bool-cases,
}
use cloud_burst_controller.Api.{InstanceTypeConfig, AwsConfig}
use cloud_burst_controller.Cloud.{LaunchOptions}
use cloud_burst_controller.Cloud.Ec2.{is_capacity_error}
use cloud_burst_controller.Errors.{Error, Result, ok, err}
use cloud_burst_controller.Effect.{Request, launch_node}
use cloud_burst_controller.Effect.Contract.{
  any_answer, Event, event, requests, Trace, Ensures, Environment, run, EndsWell, run-EndsWell,
}
use cloud_burst_controller.Controller.Provisioner.Launch.{
  Launched, launch_options, launch_with_fallback,
}

-- A launch that failed for want of capacity.
abbrev pub ShortOfCapacity : Event → Type 0
ShortOfCapacity e =
    (opts : LaunchOptions) × (x : Error) × (e ≡ event (launch_node opts) (err x))
    × (is_capacity_error x ≡ true)

-- The last call of a trace, after calls that all failed for want of capacity.
abbrev pub EndsWith : (Event → Type 0) → Trace → Type 0
EndsWith P [] = ⊥
EndsWith P (e ∷ tr) = P e × All ShortOfCapacity tr

module _ (aws : AwsConfig) (name : String) (user_data : List ℕ) where
  abbrev pub asks : InstanceTypeConfig → Request
  asks c = launch_node (launch_options aws c name user_data)

  -- The launches of these candidates in order, the latest first, after earlier calls.
  abbrev pub asked : List InstanceTypeConfig → List Request → List Request
  asked [] earlier = earlier
  asked (c ∷ cs) earlier = asked cs (asks c ∷ earlier)

  -- Why it stopped before the candidates `rest`: the last one tried was launched, or failed for another
  -- reason, or there is no candidate left.
  abbrev pub Stopped : (tried rest : List InstanceTypeConfig) → Trace → Result Launched → Type 0
  Stopped tried rest tr (ok l) =
      (earlier : List InstanceTypeConfig) × (c : InstanceTypeConfig) × (tried ≡ earlier ++ c ∷ [])
      × (l.instance_type ≡ c.name)
      × EndsWith (λ e. e ≡ event (asks c) (ok l.instance_id)) tr
  Stopped tried rest tr (err x) =
      ((rest ≡ []) × All ShortOfCapacity tr)
      ⊎ EndsWith
          (λ e.
            (c : InstanceTypeConfig) × (y : Error) × (e ≡ event (asks c) (err y))
            × (is_capacity_error y ≡ false))
          tr

  -- The launch asks for the type of this candidate, with the image of the candidate, or that of the
  -- pool if it has none; all else is from the pool's configuration, or handed on.
  pub record AsksFor (c : InstanceTypeConfig) (opts : LaunchOptions) : Type 0 where
    pub instance_type : opts.instance_type ≡ c.name
    pub image : ((c.ami ≡ "") × (opts.ami ≡ aws.ami)) ⊎ ((c.ami ≢ "") × (opts.ami ≡ c.ami))
    pub node_name : opts.name ≡ name
    pub boot_data : opts.user_data ≡ user_data
    pub subnet : opts.subnet_id ≡ aws.subnet_id
    pub groups : opts.security_group_ids ≡ aws.security_group_ids
    pub size : opts.volume_size ≡ aws.volume_size
    pub volume : opts.volume_type ≡ aws.volume_type
    pub tags : opts.tags ≡ aws.tags

  launch_options-AsksFor :
      (c : InstanceTypeConfig) → AsksFor c (launch_options aws c name user_data)
  unfolding launch_options
  launch_options-AsksFor c = record {
    instance_type = refl;
    image = elim (Bool-cases (str_eq c.ami "")) [
      | inl none_given ↦ rw none_given (inl ((eq_iff c.ami "").0 none_given, refl))
      | inr given ↦ rw given (inr (λ e. cc (given, (eq_iff c.ami "").1 e), refl))
    ];
    node_name = refl;
    boot_data = refl;
    subnet = refl;
    groups = refl;
    size = refl;
    volume = refl;
    tags = refl;
  }

  pub record FallsBack (candidates : List InstanceTypeConfig) (tr : Trace) (r : Result Launched)
      : Type 0 where
    pub tried : List InstanceTypeConfig
    pub rest : List InstanceTypeConfig
    pub prefix : candidates ≡ tried ++ rest
    pub in_order : requests tr ≡ asked tried []
    pub own_options : All (λ c. AsksFor c (launch_options aws c name user_data)) tried
    pub stopped : Stopped tried rest tr r

  asked-append :
      (xs : List InstanceTypeConfig) (c : InstanceTypeConfig) (earlier : List Request)
      → asked (xs ++ c ∷ []) earlier ≡ asks c ∷ asked xs earlier
  asked-append [] c earlier = refl
  asked-append (x ∷ xs) c earlier = asked-append xs c (asks x ∷ earlier)

  all_options :
      (cs : List InstanceTypeConfig) → All (λ c. AsksFor c (launch_options aws c name user_data)) cs
  all_options [] = tt
  all_options (c ∷ cs) = (launch_options-AsksFor c, all_options cs)

  falls_back :
      (candidates tried cs : List InstanceTypeConfig) (tr : Trace)
      → candidates ≡ tried ++ cs
      → requests tr ≡ asked tried []
      → All ShortOfCapacity tr
      → Ensures any_answer
          (FallsBack candidates)
          tr
          (launch_with_fallback (some aws) cs name user_data)
  unfolding launch_with_fallback
  falls_back candidates tried [] tr e in_order short = record {
    tried = tried;
    rest = [];
    prefix = e;
    in_order = in_order;
    own_options = all_options tried;
    stopped = inl (refl, short);
  }
  falls_back candidates tried (c ∷ cs) tr e in_order short = (
    tt,
    let prefix : candidates ≡ (tried ++ c ∷ []) ++ cs = e ∙ sym (append_assoc tried (c ∷ []) cs) in
        let in_order' : asks c ∷ requests tr ≡ asked (tried ++ c ∷ []) [] =
          ap (λ qs. asks c ∷ qs) in_order ∙ sym (asked-append tried c []) in
        elim [
          | ok id ↦ λ _. record {
            tried = tried ++ c ∷ [];
            rest = cs;
            prefix = prefix;
            in_order = in_order';
            own_options = all_options (tried ++ c ∷ []);
            stopped = (tried, c, refl, refl, (refl, short));
          }
          | err x ↦ λ _. elim (Bool-cases (is_capacity_error x)) [
            | inl full ↦ rw full (
                falls_back candidates (tried ++ c ∷ []) cs _ prefix in_order'
                  ((launch_options aws c name user_data, x, refl, full), short))
            | inr other ↦ rw other (record {
              tried = tried ++ c ∷ [];
              rest = cs;
              prefix = prefix;
              in_order = in_order';
              own_options = all_options (tried ++ c ∷ []);
              stopped = inr ((c, x, refl, other), short);
            })
          ]
        ],
  )

  -- In every environment the launches that `launchWithFallback` asks for are those of the first so many
  -- candidates, in their order, each for the type of the candidate, with its image or else the pool's, and
  -- the rest of the pool's configuration; each but the last one failed for want of capacity. If it returns an
  -- instance, then the last one tried was launched, and its ID and type are returned; if it returns an
  -- error, then the last one tried failed for another reason, or all candidates were tried and all
  -- failed for want of capacity.
  pub launch_with_fallback-FallsBack :
      (candidates : List InstanceTypeConfig) (env : Environment) (s : env.State)
      → EndsWell any_answer
          (FallsBack candidates)
          (run env s [] (launch_with_fallback (some aws) candidates name user_data))
  launch_with_fallback-FallsBack candidates env s =
      run-EndsWell any_answer env (λ s' q. tt) (FallsBack candidates) s [] _ (tt)
        (falls_back candidates [] candidates [] refl refl tt)
