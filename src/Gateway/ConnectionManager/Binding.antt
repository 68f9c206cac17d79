-- ===== src/Gateway/ConnectionManager/Binding.antt =====
-- Connections that come, bind to a user and device, and go.
use nebula_im.Base.{
  if◌then◌else◌, ℕ, false, not, ◌&&◌, ◌||◌, ◌≡◌, ◌≢◌, refl, sym, ap, ◌∙◌, Option, none, some, [],
  ◌∷◌, ◌==◌, arith, Option-cases, inl, inr, Bool-cases,
}
use nebula_im.Base.Keys.{Text, text_beq, nat_eq, text_eq, beq_self, beq_ne, text_beq_iff}
use nebula_im.Base.Dict.{Dict, lookup, insert, erase, lookup-insert, lookup-erase}
use nebula_im.Gateway.ConnectionManager.{
  points_to, ConnectionManager, ConnectionContext, DeviceIndex, unindex, index_without, is_empty,
  connection_name, add_connection, remove_connection, fresh_context, release, bound_to,
  bind_context, bind_user,
}
use nebula_im.Gateway.ConnectionManager.Index.{
  find, find-unindex, find_added, IsTidy, unindex-IsTidy, added-IsTidy,
}
use nebula_im.Gateway.ConnectionManager.Invariant.{
  IsBound, IsValid, connection_name_injective, one_context, paired_update, fresh_update,
}

-- A context of another connection may come.
others-IsBound :
    (contexts : Dict Text ConnectionContext) (c c' : Text) (ctx : ConnectionContext) (u : ℕ)
    (d : Text)
    → text_beq c c' ≡ false
    → IsBound contexts c' u d
    → IsBound (insert c ctx contexts) c' u d
others-IsBound contexts c c' ctx u d other b = record {
  context = b.context;
  listed = ground (arith, lookup-insert c c' ctx contexts, b.listed);
  same_user = b.same_user;
  same_device = b.same_device;
  logged_in = b.logged_in;
  real_user = b.real_user;
  real_device = b.real_device;
}

-- Or go.
erased-IsBound :
    (contexts : Dict Text ConnectionContext) (c c' : Text) (u : ℕ) (d : Text)
    → text_beq c c' ≡ false
    → IsBound contexts c' u d
    → IsBound (erase c contexts) c' u d
erased-IsBound contexts c c' u d other b = record {
  context = b.context;
  listed = ground (arith, lookup-erase c c' contexts, b.listed);
  same_user = b.same_user;
  same_device = b.same_device;
  logged_in = b.logged_in;
  real_user = b.real_user;
  real_device = b.real_device;
}

bound_ne :
    (contexts : Dict Text ConnectionContext) (c c' : Text) (u : ℕ) (d : Text)
    → lookup c contexts ≡ none
    → IsBound contexts c' u d
    → text_beq c c' ≡ false
bound_ne contexts c c' u d h b =
    beq_ne c c' (λ same. let moved = ap (λ t. lookup t contexts) same in let there = b.listed in cc)

pub add_connection-IsValid :
    (m : ConnectionManager) (conn : ℕ) (peer_addr : Text) (now : ℕ)
    → IsValid m
    → IsValid (add_connection m conn peer_addr now).1
unfolding add_connection
add_connection-IsValid m conn peer_addr now v = record {
  indexed = λ u d c e.
      let b = v.indexed u d c e in
      others-IsBound m.contexts id c opened u d (bound_ne m.contexts id c u d unused b) b;
  tidy = v.tidy;
  paired = λ c. ground (
    arith,
    lookup-insert id c conn m.connections,
    lookup-insert id c opened m.contexts,
    v.paired c,
  );
  fresh = λ n h. ground (
    arith,
    lookup-insert id (connection_name m.gateway_id n) opened m.contexts,
    (text_beq_iff id (connection_name m.gateway_id n)).0,
    connection_name_injective m.gateway_id m.next_conn_id n,
    v.fresh n (omega arith),
  );
}
  where
    id : Text
    id = connection_name m.gateway_id m.next_conn_id

    opened : ConnectionContext
    opened = fresh_context id peer_addr now

    unused : lookup id m.contexts ≡ none
    unused = v.fresh m.next_conn_id (omega arith)

-- An entry that `removeConnection` leaves was there before.
kept :
    (o : Option ConnectionContext) (u : ℕ) (d c c' : Text) (index : DeviceIndex)
    → find u d (index_without o c index) ≡ some c'
    → find u d index ≡ some c'
unfolding index_without
kept none u d c c' index h = h
kept (some ctx) u d c c' index h =
    ground (arith, find-unindex ctx.user_id u ctx.device_id d c index)

-- An entry that `bindUser` leaves was there before.
kept_released :
    (ctx : ConnectionContext) (u : ℕ) (d c c' : Text) (index : DeviceIndex)
    → find u d (release ctx c index) ≡ some c'
    → find u d index ≡ some c'
unfolding release
kept_released ctx u d c c' index h =
    ground (arith, find-unindex ctx.user_id u ctx.device_id d c index)

not_empty : (d : Text) → d ≢ [] → is_empty d ≡ false
not_empty [] h = ground arith
not_empty (a ∷ d) h = refl

unindexed :
    (v u : ℕ) (e d c : Text) (index : DeviceIndex)
    → v ≡ u
    → e ≡ d
    → find u d (unindex v e c index) ≢ some c
unindexed v u e d c index same_user same_device h =
    ground (arith, find-unindex v u e d c index, beq_self c, (text_beq_iff e d).1)

gone :
    (ctx : ConnectionContext) (u : ℕ) (d c : Text) (index : DeviceIndex)
    → ctx.user_id ≡ u
    → ctx.device_id ≡ d
    → u ≢ 0
    → find u d (index_without (some ctx) c index) ≢ some c
unfolding index_without
gone ctx u d c index same_user same_device real h =
    unindexed ctx.user_id u ctx.device_id d c index same_user same_device (ground arith)

gone_released :
    (ctx : ConnectionContext) (u : ℕ) (d c : Text) (index : DeviceIndex)
    → ctx.user_id ≡ u
    → ctx.device_id ≡ d
    → u ≢ 0
    → d ≢ []
    → find u d (release ctx c index) ≢ some c
unfolding release
gone_released ctx u d c index same_user same_device real named h =
    unindexed ctx.user_id u ctx.device_id d c index same_user same_device
      (ground (arith, not_empty d named, ap is_empty same_device))

-- After removeConnection on a valid manager no entry of the device index leads to the
-- connection.
pub remove_connection_forgets :
    (m : ConnectionManager) (c : Text) (u : ℕ) (d : Text)
    → IsValid m
    → find u d (remove_connection m c).user_device_to_connection ≢ some c
unfolding remove_connection
remove_connection_forgets m c u d v h =
    let index = m.user_device_to_connection in
    let b = v.indexed u d c (kept (lookup c m.contexts) u d c c index h) in
    gone b.context u d c index b.same_user b.same_device b.real_user
      (ap (λ o. find u d (index_without o c index)) (sym b.listed) ∙ h)

index_without-IsTidy :
    (o : Option ConnectionContext) (c : Text) (index : DeviceIndex)
    → IsTidy index
    → IsTidy (index_without o c index)
unfolding index_without
index_without-IsTidy none c index t = t
index_without-IsTidy (some ctx) c index t = elim (Bool-cases (ctx.user_id == 0)) [
  | inl free ↦ rw (free, index_without) t
  | inr taken ↦ rw (taken, index_without) (unindex-IsTidy ctx.user_id ctx.device_id c index t)
]

release-IsTidy :
    (ctx : ConnectionContext) (c : Text) (index : DeviceIndex)
    → IsTidy index
    → IsTidy (release ctx c index)
unfolding release
release-IsTidy ctx c index t =
    elim (Bool-cases (not (ctx.user_id == 0) && not (is_empty ctx.device_id))) [
      | inl taken ↦ rw (taken, release) (unindex-IsTidy ctx.user_id ctx.device_id c index t)
      | inr free ↦ rw (free, release) t
    ]

pub remove_connection-IsValid :
    (m : ConnectionManager) (c : Text) → IsValid m → IsValid (remove_connection m c)
unfolding remove_connection
remove_connection-IsValid m c v =
    let index = m.user_device_to_connection in
    record {
      indexed = λ u d c' h.
          erased-IsBound m.contexts c c' u d
            (beq_ne c c' (λ same. remove_connection_forgets m c u d v (h ∙ ap some (sym same))))
            (v.indexed u d c' (kept (lookup c m.contexts) u d c c' index h));
      tidy = index_without-IsTidy (lookup c m.contexts) c index v.tidy;
      paired = λ c'.
          ground
            (arith, lookup-erase c c' m.contexts, lookup-erase c c' m.connections, v.paired c');
      fresh = λ n h.
          ground (arith, lookup-erase c (connection_name m.gateway_id n) m.contexts, v.fresh n h);
    }

-- After a successful login the device is bound to the connection that logged in.
IsBound-bound_to :
    (contexts : Dict Text ConnectionContext) (c : Text) (ctx : ConnectionContext) (u : ℕ)
    (token d platform : Text) (now : ℕ)
    → u ≢ 0
    → d ≢ []
    → IsBound (insert c (bound_to ctx u token d platform now) contexts) c u d
IsBound-bound_to contexts c ctx u token d platform now real named =
    let bound : ConnectionContext = bound_to ctx u token d platform now in
    record {
      context = bound;
      listed = ground (arith, lookup-insert c c bound contexts, beq_self c);
      same_user = refl;
      same_device = refl;
      logged_in = refl;
      real_user = real;
      real_device = named;
    }

moved :
    {contexts : Dict Text ConnectionContext} {c c' : Text} {u v : ℕ} {d e : Text}
    → c ≡ c'
    → u ≡ v
    → d ≡ e
    → IsBound contexts c u d
    → IsBound contexts c' v e
moved {contexts} {c} {c'} {u} {v} {d} {e} hc hu hd b = record {
  context = b.context;
  listed = ap (λ t. lookup t contexts) (sym hc) ∙ b.listed;
  same_user = b.same_user ∙ hu;
  same_device = b.same_device ∙ hd;
  logged_in = b.logged_in;
  real_user = λ zero. b.real_user (hu ∙ zero);
  real_device = λ empty. b.real_device (hd ∙ empty);
}

-- No binding of the connection is left.
released_ne :
    (m : ConnectionManager) (c c' : Text) (ctx : ConnectionContext) (u : ℕ) (d : Text)
    → IsValid m
    → lookup c m.contexts ≡ some ctx
    → find u d (release ctx c m.user_device_to_connection) ≡ some c'
    → c ≢ c'
released_ne m c c' ctx u d v present h same =
    let index = m.user_device_to_connection in
    let b = v.indexed u d c' (kept_released ctx u d c c' index h) in
    let one : ctx ≡ b.context = one_context m.contexts c c' ctx b.context same present b.listed in
    gone_released ctx u d c index (ap (λ (t : ConnectionContext). t.user_id) one ∙ b.same_user)
      (ap (λ (t : ConnectionContext). t.device_id) one ∙ b.same_device) b.real_user b.real_device
      (h ∙ ap some (sym same))

untouched :
    (ctx : ConnectionContext) (u : ℕ) (d c c' : Text) (index : DeviceIndex)
    → find u d index ≡ some c'
    → text_beq c' c ≡ false
    → find u d (release ctx c index)
      ≡ (if points_to (find u d index) c then none else find u d index)
unfolding release
untouched ctx u d c c' index present other =
    let same_user = ap (λ v. find v ctx.device_id index) {x = ctx.user_id} {y = u} in
    let same_device = ap (λ e. find u e index) {x = ctx.device_id} {y = d} in
    ground (
      arith,
      find-unindex ctx.user_id u ctx.device_id d c index,
      same_user,
      same_device,
      (text_beq_iff ctx.device_id d).0,
    )

released_lookup :
    (m : ConnectionManager) (c : Text) (ctx : ConnectionContext) (u : ℕ) (d : Text)
    → IsValid m
    → lookup c m.contexts ≡ some ctx
    → find u d (release ctx c m.user_device_to_connection) ≡ (
        if points_to (find u d m.user_device_to_connection) c
        then none
        else find u d m.user_device_to_connection)
released_lookup m c ctx u d v present =
    let index = m.user_device_to_connection in
    elim (Option-cases (find u d index)) [
      | inl absent ↦ elim (Option-cases (find u d (release ctx c index))) [
        | inl gone_too ↦ ground arith
        | inr (c', there) ↦ let before = kept_released ctx u d c c' index there in ground arith
      ]
      | inr (c', present') ↦ elim (Bool-cases (text_beq c' c)) [
        | inl same ↦ elim (Option-cases (find u d (release ctx c index))) [
          | inl gone_now ↦ ground arith
          | inr (c'', there) ↦
              let before = kept_released ctx u d c c'' index there in
              let differ = released_ne m c c'' ctx u d v present there in
              ground (arith, (text_beq_iff c' c).0)
        ]
        | inr other ↦ untouched ctx u d c c' index present' other
      ]
    ]

bind_context-IsValid :
    (m : ConnectionManager) (c : Text) (ctx : ConnectionContext) (user_id : ℕ)
    (token device_id platform : Text) (now : ℕ)
    → IsValid m
    → lookup c m.contexts ≡ some ctx
    → user_id ≢ 0
    → device_id ≢ []
    → IsValid (bind_context m c ctx user_id token device_id platform now).1
unfolding bind_context
bind_context-IsValid m c ctx user_id token device_id platform now v present real named =
    let index = m.user_device_to_connection in
    let left = release ctx c index in
    let bound : ConnectionContext = bound_to ctx user_id token device_id platform now in
    record {
      indexed = λ u d c' h. elim (Bool-cases ((user_id == u) && text_beq device_id d)) [
        | inl here ↦
            moved (ground (arith, find_added user_id u device_id d c left)) (ground arith)
              ((text_beq_iff device_id d).0 (ground arith))
              (IsBound-bound_to m.contexts c ctx user_id token device_id platform now real named)
        | inr elsewhere ↦
            let h' : find u d left ≡ some c' =
              ground (arith, find_added user_id u device_id d c left) in
            others-IsBound m.contexts c c' bound u d
              (beq_ne c c' (released_ne m c c' ctx u d v present h'))
              (v.indexed u d c' (kept_released ctx u d c c' index h'))
      ];
      tidy = added-IsTidy user_id device_id c left (release-IsTidy ctx c index v.tidy);
      paired = λ c'. paired_update m c c' ctx bound present (v.paired c');
      fresh = λ n k.
          fresh_update m.contexts c (connection_name m.gateway_id n) ctx bound present
            (v.fresh n k);
    }

pub bind_user-IsValid :
    (m : ConnectionManager) (c : Text) (user_id : ℕ) (token device_id platform : Text) (now : ℕ)
    → IsValid m
    → IsValid (bind_user m c user_id token device_id platform now).2
unfolding bind_user
bind_user-IsValid m c user_id token device_id platform now v =
    elim (Bool-cases ((user_id == 0) || is_empty device_id)) [
      | inl refused ↦ rw (refused, bind_user) v
      | inr accepted ↦ elim (Option-cases (lookup c m.contexts)) [
        | inl absent ↦ rw (accepted, absent, bind_user) v
        | inr (ctx, present) ↦
            rw (accepted, present, bind_user)
              (bind_context-IsValid m c ctx user_id token device_id platform now v present
                (ground arith) (λ empty. ground (arith, ap is_empty empty)))
      ]
    ]

-- A login of a known connection on a valid manager, with a user other than 0 and a device
-- that is not empty, makes the device index list the connection for that user and device,
-- removes the entry that the connection had before, and leaves each other entry as it was.
pub bind_user_lem :
    (m : ConnectionManager) (c : Text) (ctx : ConnectionContext) (user_id : ℕ)
    (token device_id platform : Text) (now : ℕ) (u : ℕ) (d : Text)
    → IsValid m
    → lookup c m.contexts ≡ some ctx
    → user_id ≢ 0
    → device_id ≢ []
    → find u d (bind_user m c user_id token device_id platform now).2.user_device_to_connection ≡ (
        if (user_id == u) && text_beq device_id d
        then some c
        else if points_to (find u d m.user_device_to_connection) c
        then none
        else find u d m.user_device_to_connection)
unfolding bind_user bind_context
bind_user_lem m c ctx user_id token device_id platform now u d v present real named =
    let accepted : ((user_id == 0) || is_empty device_id) ≡ false =
      ground (arith, not_empty device_id named) in
    rw (accepted, present, bind_user)
      (ground (
        arith,
        find_added user_id u device_id d c (release ctx c m.user_device_to_connection),
        released_lookup m c ctx u d v present,
      ))
