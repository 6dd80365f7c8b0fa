-- ===== src/Cloud/Ec2/Provider/Listing.antt =====
-- What `ListManagedNodes` of `EC2Provider` makes of the instances that EC2 describes.
use mathlib.Core.List.Perm
use mathlib.Core.List.{Mem, Perm, mem-cons, mem-cons_self, mem-cons_of_mem, not-mem-nil}
use mathlib.Core.Logic.Or
use cloud_burst_controller.Common.{
  string_set, ℕ, zero, suc, get_elem?, ◌≡◌, ◌≢◌, refl, ap, subst, ◌∙◌, String, none, some, List, [],
  ◌∷◌, map, All, All-perm, All-get, length, insert, lookup, lookup-insert, eq_iff, Bool-cases, inl,
  inr, str_eq, if◌then◌else◌, Option,
}
use cloud_burst_controller.Kube.{TextMap}
use cloud_burst_controller.Cloud.{LaunchOptions, CloudNode}
use cloud_burst_controller.Errors.{ok}
use cloud_burst_controller.Cloud.Ec2.Provider.{
  Tag, time_of, Instance, Ec2Api, Ranger, to_string, tag, managed_key, launch_tags, read_tags,
  cloud_node_of, cloud_nodes_of, concat, listed, managed_filters, list_managed_nodes,
}

-- Every instance has a state: the condition under which no nil pointer is dereferenced.
abbrev pub HasState : Instance → Type 0
HasState i = (state : String) × (i.state ≡ some state)

-- A tag under another key leaves the name and the value of a key.
abbrev Apart : String → (String × String) → Type 0
Apart k kv = kv.0 ≢ k

abbrev user_tags : TextMap → List Tag
user_tags m = map (λ (kv : String × String). tag kv.0 kv.1) m

-- A tag under this key has this value.
abbrev Says : (key value : String) → Tag → Type 0
Says key value t = to_string t.key ≡ key → to_string t.value ≡ value

Says-prop : (key value : String) (t : Tag) → IsProp (Says key value t)
Says-prop key value t = hlevel (string_set)

user_tags-Says :
    (key value : String) (m : TextMap) → All (Apart key) m → All (Says key value) (user_tags m)
user_tags-Says key value [] apart = tt
user_tags-Says key value (kv ∷ m) apart =
    ((λ same. absurd (apart.0 same)), user_tags-Says key value m apart.1)

-- What one tag makes of a node.
abbrev read_tag : Tag → CloudNode → CloudNode
read_tag t node = record node {
  name = if str_eq (to_string t.key) "Name" then to_string t.value else node.name;
  tags = insert (to_string t.key) (to_string t.value) node.tags;
}

-- What a tag under the key sets, and another leaves: its value, if all tags under the key agree.
module _ (key value : String) (shown : CloudNode → Option String)
    (reads : (t : Tag) (node : CloudNode)
      → shown (read_tag t node)
        ≡ (if str_eq (to_string t.key) key then some (to_string t.value) else shown node)) where
  read_tag_stays :
      (t : Tag) (node : CloudNode)
      → Says key value t
      → shown node ≡ some value
      → shown (read_tag t node) ≡ some value
  read_tag_stays t node says was = reads t node ∙ elim (Bool-cases (str_eq (to_string t.key) key)) [
    | inl same ↦ rw same (ap some (says ((eq_iff (to_string t.key) key).0 same)))
    | inr other ↦ rw other was
  ]

  read_tags_stays :
      (ts : List Tag) (node : CloudNode)
      → All (Says key value) ts
      → shown node ≡ some value
      → shown (read_tags ts node) ≡ some value
  unfolding read_tags
  read_tags_stays [] node says was = was
  read_tags_stays (t ∷ ts) node says was =
      read_tags_stays ts _ says.1 (read_tag_stays t node says.0 was)

  read_tag_sets : (node : CloudNode) → shown (read_tag (tag key value) node) ≡ some value
  read_tag_sets node = reads (tag key value) node ∙ rw ((eq_iff key key).1 refl) refl

  read_tags_sets :
      (ts : List Tag) (node : CloudNode)
      → All (Says key value) ts
      → Mem (tag key value) ts
      → shown (read_tags ts node) ≡ some value
  unfolding read_tags
  read_tags_sets [] node says m = absurd (not-mem-nil m)
  read_tags_sets (t ∷ ts) node says m =
      Or.elim (hlevel (string_set)) (mem-cons.0 m)
        (λ same.
          read_tags_stays ts _ says.1
            (subst (λ u. shown (read_tag u node) ≡ some value) same (read_tag_sets node)))
        (read_tags_sets ts _ says.1)

abbrev value_of : String → Option String → String
value_of text none = text
value_of text (some v) = v

name_reads :
    (t : Tag) (node : CloudNode)
    → some (read_tag t node).name
      ≡ (if str_eq (to_string t.key) "Name" then some (to_string t.value) else some node.name)
name_reads t node = elim (Bool-cases (str_eq (to_string t.key) "Name")) [
  | inl same ↦ rw same refl
  | inr other ↦ rw other refl
]

instance_id-read_tags :
    (ts : List Tag) (node : CloudNode) → (read_tags ts node).instance_id ≡ node.instance_id
unfolding read_tags
instance_id-read_tags [] node = refl
instance_id-read_tags (t ∷ ts) node = instance_id-read_tags ts _

-- The node before its tags are read.
abbrev untagged : Instance → String → CloudNode
untagged i state = record {
  instance_id = to_string i.instance_id;
  instance_type = i.instance_type;
  name = "";
  state = state;
  launched_at = time_of i.launch_time;
  tags = [];
}

cloud_node_of_state :
    (i : Instance) (state : String)
    → i.state ≡ some state
    → cloud_node_of i ≡ some (read_tags i.tags (untagged i state))
unfolding cloud_node_of
cloud_node_of_state i state e =
    ap (λ o. elim o [ none ↦ none | some st ↦ some (read_tags i.tags (untagged i st)) ]) e

-- The node that is listed for an instance with the tags of a launch.
pub record Shows (opts : LaunchOptions) (i : Instance) (n : CloudNode) : Type 0 where
  pub name : n.name ≡ opts.name
  pub instance_id : n.instance_id ≡ to_string i.instance_id
  pub managed : lookup managed_key n.tags ≡ some "true"

module _ (ranger : Ranger) (opts : LaunchOptions) (unnamed : All (Apart "Name") opts.tags)
    (unmanaged : All (Apart managed_key) opts.tags) where
  launched_tags-Says :
      (key value : String)
      → Says key value (tag "Name" opts.name)
      → Says key value (tag managed_key "true")
      → All (Apart key) opts.tags
      → (ts : List Tag) → Perm ts (launch_tags ranger opts)
      → All (Says key value) ts
  unfolding launch_tags
  launched_tags-Says key value named managed apart ts same =
      All-perm (Says key value) (Says-prop key value) (Perm.symm same) (
        named,
        (
          managed,
          user_tags-Says key value (ranger.range_map opts.tags)
              (All-perm (Apart key) (λ kv. hlevel) (Perm.symm (ranger.rearranged opts.tags)) apart),
        ),
      )

  Name_launched : Mem (tag "Name" opts.name) (launch_tags ranger opts)
  unfolding launch_tags
  Name_launched = mem-cons_self

  managed_launched : Mem (tag managed_key "true") (launch_tags ranger opts)
  unfolding launch_tags
  managed_launched = mem-cons_of_mem (tag "Name" opts.name) mem-cons_self

  launch_tags-Shows :
      (i : Instance) (ts : List Tag) (node : CloudNode)
      → Perm ts (launch_tags ranger opts)
      → node.instance_id ≡ to_string i.instance_id
      → Shows opts i (read_tags ts node)
  launch_tags-Shows i ts node same e = record {
    name = ap (value_of "") (
        read_tags_sets "Name" opts.name (λ n. some n.name) name_reads ts node
          (launched_tags-Says "Name" opts.name (λ _. refl)
            (λ clash. absurd (cc ((eq_iff managed_key "Name").1 clash))) unnamed ts same)
          (Perm.subset (Perm.symm same) _ Name_launched));
    instance_id = instance_id-read_tags ts _ ∙ e;
    managed =
        read_tags_sets managed_key "true" (λ n. lookup managed_key n.tags)
          (λ t n. lookup-insert (to_string t.key) managed_key (to_string t.value) n.tags) ts node
          (launched_tags-Says managed_key "true"
            (λ clash. absurd (cc ((eq_iff "Name" managed_key).1 clash))) (λ _. refl) unmanaged ts
            same)
          (Perm.subset (Perm.symm same) _ managed_launched);
  }

  cloud_node_of-Shows :
      (i : Instance)
      → HasState i
      → Perm i.tags (launch_tags ranger opts)
      → (n : CloudNode) → cloud_node_of i ≡ some n
      → Shows opts i n
  unfolding cloud_node_of
  cloud_node_of-Shows i (state, e) tagged n listed_as =
      let node : CloudNode = untagged i state in
      let value : cloud_node_of i ≡ some (read_tags i.tags node) = cloud_node_of_state i state e in
      let same : read_tags i.tags node ≡ n = cc (value, listed_as) in
      subst (Shows opts i) same (launch_tags-Shows i i.tags node tagged refl)

-- Each instance is listed, at its place.
abbrev pub Listed : List Instance → List CloudNode → Type 0
Listed [] [] = Unit
Listed [] (n ∷ ns) = ⊥
Listed (i ∷ is) [] = ⊥
Listed (i ∷ is) (n ∷ ns) = (cloud_node_of i ≡ some n) × Listed is ns

cloud_node_of-some : (i : Instance) → HasState i → (n : CloudNode) × (cloud_node_of i ≡ some n)
cloud_node_of-some i (state, e) = (_, cloud_node_of_state i state e)

cloud_nodes_of-Listed :
    (is : List Instance)
    → All HasState is
    → (ns : List CloudNode) × (cloud_nodes_of is ≡ some ns) × Listed is ns
unfolding cloud_nodes_of
cloud_nodes_of-Listed [] h = ([], refl, tt)
cloud_nodes_of-Listed (i ∷ is) h =
    let (n, e) = cloud_node_of-some i h.0 in
    let (ns, es, all_listed) = cloud_nodes_of-Listed is h.1 in
    (n ∷ ns, rw (e, es) refl, (e, all_listed))

Listed-get :
    (is : List Instance) (ns : List CloudNode) (k : ℕ) (i : Instance)
    → Listed is ns
    → get_elem? is k ≡ some i
    → (n : CloudNode) × (get_elem? ns k ≡ some n) × (cloud_node_of i ≡ some n)
Listed-get [] [] k i h e = absurd (cc e)
Listed-get [] (n ∷ ns) k i h e = absurd h
Listed-get (j ∷ is) [] k i h e = absurd h
Listed-get (j ∷ is) (n ∷ ns) zero i h e = (n, refl, cc (e, h.0))
Listed-get (j ∷ is) (n ∷ ns) (suc k) i h e = Listed-get is ns k i h.1 e

Listed-length : (is : List Instance) (ns : List CloudNode) → Listed is ns → length ns ≡ length is
Listed-length [] [] h = refl
Listed-length [] (n ∷ ns) h = absurd h
Listed-length (i ∷ is) [] h = absurd h
Listed-length (i ∷ is) (n ∷ ns) h = ap suc (Listed-length is ns h.1)

-- When EC2 describes instances, all of them with a state, `ListManagedNodes` lists each of them at its place,
-- and an instance with the tags that `LaunchNode` asked for, in any order, is listed under the name that
-- it was launched with and the ID that EC2 describes, as managed, if none of the pool's own tags
-- is called Name or burst.homelab.dev/managed.
pub list_managed_nodes-Shows :
    (api : Ec2Api) (ranger : Ranger) (s : api.State) (opts : LaunchOptions)
    (reservations : List (List Instance)) (k : ℕ) (i : Instance)
    → (api.describe_instances s managed_filters).0 ≡ ok reservations
    → All HasState (concat reservations)
    → get_elem? (concat reservations) k ≡ some i
    → Perm i.tags (launch_tags ranger opts)
    → All (Apart "Name") opts.tags
    → All (Apart managed_key) opts.tags
    → (ns : List CloudNode) × (n : CloudNode) × ((list_managed_nodes api ranger s).0 ≡ some (ok ns))
      × (length ns ≡ length (concat reservations))
      × (get_elem? ns k ≡ some n)
      × Shows opts i n
unfolding list_managed_nodes listed
list_managed_nodes-Shows api ranger s opts reservations k i described states at_k tagged unnamed
      unmanaged =
    let (ns, all_read, all_listed) = cloud_nodes_of-Listed (concat reservations) states in
    let (n, at_k', read) = Listed-get (concat reservations) ns k i all_listed at_k in
    (
      ns,
      n,
      rw described (rw (listed, all_read) refl),
      Listed-length (concat reservations) ns all_listed,
      at_k',
      cloud_node_of-Shows ranger opts unnamed unmanaged i
          (All-get HasState (concat reservations) k i states at_k) tagged n read,
    )
