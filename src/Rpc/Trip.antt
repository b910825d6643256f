-- ===== src/Rpc/Trip.antt =====
-- A whole call: request, service, response and return, where MQTT delivers what is published on the
-- topic that a side has subscribed to, its queue.
use Prim.Native.String.append
use bigdataexpress_c.Base.{
  String, str_append, ◌≡◌, ◌≢◌, refl, sym, ◌∙◌, ap, inl, inr, subst, Option-cases, true, false,
  Option, none, some, str_eq, if◌then◌else◌, arith, eq_iff,
}
use bigdataexpress_c.Base.Keyed.{Keyed, lookup, lookup-emplace, is_some}
use bigdataexpress_c.GridMap.Text.{is_prefix}
use bigdataexpress_c.Rpc.{Packet}
use bigdataexpress_c.Rpc.Client.{
  Client, Event, id_exists, Reply, published, returned, response, timed_out, find_number, topic_of,
  begin_call, publish_call, begin_new, on_msg, end_call,
}
use bigdataexpress_c.Rpc.Server.{
  Bodies, Server, Mode, bypass, handles, Served, hands, publishes, server_on_msg, send_response,
}
use bigdataexpress_c.Rpc.Implements.{Implements, unmade}
use bigdataexpress_c.Rpc.Book.{Book}

is_prefix-append : (p s t : String) → is_prefix p s ≡ true → is_prefix p (str_append s t) ≡ true
unfolding is_prefix
is_prefix-append String.[] s t h = refl
is_prefix-append (String.◌∷◌ c p) String.[] t h = ground (arith, h)
is_prefix-append (String.◌∷◌ c p) (String.◌∷◌ d s) t h =
    subst (λ x. is_prefix (String.◌∷◌ c p) x ≡ true) (sym (append.cons d s t))
      (ground (arith, h, is_prefix-append p s t))

-- They differ in the fourth byte.
not_both : (s : String) → is_prefix "rpc/" s ≡ true → is_prefix "rpc-" s ≡ true → ⊥
unfolding is_prefix
not_both (String.◌∷◌ a (String.◌∷◌ b (String.◌∷◌ c (String.◌∷◌ d s)))) h k = ground (arith, h, k)
not_both (String.◌∷◌ a (String.◌∷◌ b (String.◌∷◌ c String.[]))) h k = ground (arith, h)
not_both (String.◌∷◌ a (String.◌∷◌ b String.[])) h k = ground (arith, h)
not_both (String.◌∷◌ a String.[]) h k = ground (arith, h)
not_both String.[] h k = ground (arith, h)

not_same :
    (cid : String) → str_append "rpc/" (str_append "rpc-res/" cid) ≢ str_append "rpc-res/" cid
unfolding is_prefix
not_same cid e =
    not_both (str_append "rpc-res/" cid)
      (subst (λ x. is_prefix "rpc/" x ≡ true) e
        (is_prefix-append "rpc/" "rpc/" (str_append "rpc-res/" cid) refl))
      (is_prefix-append "rpc-" "rpc-res/" cid refl)

other_topic :
    (cid queue : String)
    → queue ≡ str_append "rpc-res/" cid
    → str_eq (str_append "rpc/" queue) queue ≡ false
other_topic cid queue q =
    subst (λ x. str_eq (str_append "rpc/" x) x ≡ false) (sym q)
      (ground (
        arith,
        eq_iff (str_append "rpc/" (str_append "rpc-res/" cid)) (str_append "rpc-res/" cid),
        not_same cid,
      ))

module _ {V : Type 0} (j : Bodies V) (handler : V → V) where
  abbrev responds_to : Server V → Served V → Option (Packet V)
  responds_to s (hands body props) = send_response (handler body) props s
  responds_to s (publishes p) = some p

  abbrev arrive : Option (Packet V) → Client V → Client V
  arrive none c = c
  arrive (some p) c = if str_eq p.topic c.queue then (on_msg p.message c).1 else c

  abbrev after_begin : Server V → Event V × Client V → Event V
  after_begin s (published n p, c) =
      (end_call n (
        arrive
          (if str_eq p.topic s.queue then responds_to s (server_on_msg j p.message s) else none)
          c)).0
  after_begin s (e, c) = e

  -- A handler in bypass mode responds with `handler` of the body.
  unfoldable pub exchange : String → String → V → Client V → Server V → Event V
  unfolding begin_call end_call on_msg server_on_msg send_response
  exchange k target p c s = after_begin s (begin_call k target p false c)

  abbrev pub reply_in : V → Mode V → Reply V
  reply_in p bypass = response (handler p)
  reply_in p (handles hs) = timed_out p

  no_value : (c : Client V) (b : Book V) → Implements c b → find_number c.made c.values ≡ none
  no_value c b r = elim (Option-cases (find_number c.made c.values)) [
    | inl h ↦ h
    | inr (v, h) ↦ ground (arith, r.value_answered c.made v h, unmade c b r)
  ]

  module _ (k queue sid : String) (p : V) (c : Client V) where
    begun-bypass :
        find_number c.made c.values ≡ none
        → lookup k c.promises ≡ none
        → after_begin
            (record { cid = sid; queue = queue; mode = bypass })
            (publish_call k queue p false c)
          ≡ returned c.made (response (handler p))
    unfolding exchange end_call on_msg server_on_msg send_response find_number
    begun-bypass h free = ground (
      arith,
      h,
      free,
      lookup-emplace k k c.made c.promises,
      eq_iff k k,
      eq_iff queue queue,
      eq_iff c.queue c.queue,
    )

    begun-handles :
        (hs : Keyed (V → V)) (cid : String)
        → c.queue ≡ str_append "rpc-res/" cid
        → find_number c.made c.values ≡ none
        → after_begin
            (record { cid = sid; queue = queue; mode = handles hs })
            (publish_call k queue p false c)
          ≡ returned c.made (timed_out p)
    unfolding exchange end_call on_msg server_on_msg send_response find_number
    begun-handles hs cid q h = ground (arith, h, eq_iff queue queue, other_topic cid c.queue q)

    begun :
        (m : Mode V) (cid : String)
        → c.queue ≡ str_append "rpc-res/" cid
        → find_number c.made c.values ≡ none
        → lookup k c.promises ≡ none
        → after_begin
            (record { cid = sid; queue = queue; mode = m })
            (publish_call k queue p false c)
          ≡ returned c.made (reply_in p m)
    begun bypass cid q h free = begun-bypass h free
    begun (handles hs) cid q h free = begun-handles hs cid q h

  begin_new-publish_call :
      (k queue : String) (p : V) (c : Client V)
      → queue ≢ "rpc/"
      → begin_new k queue p false c ≡ publish_call k queue p false c
  begin_new-publish_call k queue p c n = ground (arith, n, eq_iff queue "rpc/")

  begin_call-publish_call :
      (k target queue : String) (p : V) (c : Client V)
      → lookup k c.promises ≡ none
      → queue ≢ "rpc/"
      → topic_of target ≡ queue
      → begin_call k target p false c ≡ publish_call k queue p false c
  unfolding begin_call
  begin_call-publish_call k target queue p c free n t =
      ap (λ o. if is_some o then (id_exists k, c) else begin_new k (topic_of target) p false c) free
      ∙ ap (λ topic. begin_new k topic p false c) t
      ∙ begin_new-publish_call k queue p c n

  -- Where the client keeps its book and the identifier is not in use, a call of the server whose
  -- queue is the topic, not "rpc/", ends: with a server in bypass mode it returns what the handler
  -- responds; with any other server it times out, whatever the handlers, for the response goes to a
  -- topic that is not the client's queue.
  pub exchange_lem :
      (k target cid : String) (p : V) (c : Client V) (b : Book V) (s : Server V)
      → Implements c b
      → lookup k c.promises ≡ none
      → c.queue ≡ str_append "rpc-res/" cid
      → s.queue ≢ "rpc/"
      → topic_of target ≡ s.queue
      → exchange k target p c s ≡ returned c.made (reply_in p s.mode)
  unfolding exchange
  exchange_lem k target cid p c b s r free q n t =
      ap (after_begin s) (begin_call-publish_call k target s.queue p c free n t)
      ∙ begun k s.queue s.cid p c s.mode cid q (no_value c b r) free
