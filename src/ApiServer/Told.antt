-- ===== src/ApiServer/Told.antt =====
-- What an event of the interface does to the registry, the subscribers and the cluster.
use mathlib.Core.List.{append-nil}
use push1st.Prelude.{
  ap, ◌∙◌, ◌≡◌, codes, bytes_eq, if◌then◌else◌, Option, Bytes, Bool, List, refl, [], ◌∷◌, some,
  false, ℕ, suc, ◌++◌, length, All,
}
use push1st.Channel.Table.{HasDistinctKeys}
use push1st.Channel.Message.{Message}
use push1st.Channel.Defs.{
  Sessions, Channel, Effect, deliver, unregister, trigger, cluster_trigger, cluster_push,
  disconnect, push, push_cluster,
}
use push1st.Channel.Routing.{recipients, push_delivers}
use push1st.Channel.Closing.{Only, push-Only}
use push1st.Channel.Registry.{World, get, update_channel, apply_effects, push_at}
use push1st.ApiServer.Events.{
  Client, Posted, channel_names, dup_channel_message, push_registered, push_name, after, push_names,
  answer_events, post_names, post_event, post_content, get_app_by_id, api_on_events,
}

-- How often the cluster is told of a push.
abbrev pub count_told : List Effect → ℕ
count_told [] = 0
count_told (cluster_push m ∷ es) = suc (count_told es)
count_told (_ ∷ es) = count_told es

Only-count_told :
    (uid : Bytes) (es rest : List Effect)
    → All (Only uid) es
    → count_told (es ++ rest) ≡ count_told rest
Only-count_told uid [] rest h = refl
Only-count_told uid (deliver n ∷ es) rest h = Only-count_told uid es rest h.1
Only-count_told uid (unregister u ∷ es) rest h = Only-count_told uid es rest h.1
Only-count_told uid (trigger k s ∷ es) rest h = Only-count_told uid es rest h.1
Only-count_told uid (cluster_trigger k s ∷ es) rest h = Only-count_told uid es rest h.1
Only-count_told uid (cluster_push m ∷ es) rest h = absurd h.0
Only-count_told uid (disconnect n ∷ es) rest h = Only-count_told uid es rest h.1

module _ (env : Sessions) where
  push_registered-push :
      (locked : Bool) (m : Message) (name : Bytes) (h : ℕ) (w : World) (c c' : Channel)
      (es : List Effect) (n : ℕ)
      → w.heap h ≡ some c
      → push env locked m c ≡ some (c', es, n)
      → push_registered env locked m name h w ≡ record {
        world = push_at env locked m h w;
        reply = (name, n) ∷ [];
        effects = cluster_push m.id ∷ (es ++ cluster_push m.id ∷ []);
        throws = false;
      }
  unfolding push_registered push_cluster push_at update_channel apply_effects
  push_registered-push locked m name h w c c' es n e p =
      rw (e, push_registered, push_at) (rw (p, push_registered, push_at) refl)

  api_on_events_run :
      (locked : Bool) (read : Bytes → Option Posted) (apps : List (Bytes × Client))
      (id name channel body : Bytes) (b : ℕ) (app : Client) (e : Posted) (h : ℕ) (w : World)
      → get_app_by_id id apps ≡ some app
      → read (b ∷ body) ≡ some e
      → e.name ≡ some name
      → e.channel ≡ some channel
      → get app.id channel w ≡ some h
      → api_on_events env locked read apps id (codes "POST") (b ∷ body) w
        ≡ answer_events (
            let p = push_registered env locked (dup_channel_message name e) channel h w in
            if p.throws
            then p
            else after env locked p
                (record { world = p.world; reply = []; effects = []; throws = false }))
  unfolding api_on_events post_content post_event post_names channel_names push_names push_name
      bytes_eq dup_channel_message
  api_on_events_run locked read apps id name channel body b app e h w e₁ e₂ e₃ e₄ e₅ =
      rw (e₁, api_on_events)
        (rw (e₂, post_content)
          (rw (e₃, post_event) (rw (e₄, channel_names) (rw (e₅, push_name) refl))))

  -- An event of an enabled application for one channel that is registered, of a message that can be
  -- pushed there. The response is 200, the registry is the one that the push leaves, the reply has
  -- the number of the live subscribers that the message is meant for, and the cluster is told of the
  -- push twice.
  pub api_on_events-push :
      (locked : Bool) (read : Bytes → Option Posted) (apps : List (Bytes × Client))
      (id name channel body : Bytes) (b : ℕ) (app : Client) (e : Posted) (h : ℕ) (w : World)
      (c c' : Channel) (es : List Effect) (n : ℕ)
      → get_app_by_id id apps ≡ some app
      → read (b ∷ body) ≡ some e
      → e.name ≡ some name
      → e.channel ≡ some channel
      → get app.id channel w ≡ some h
      → w.heap h ≡ some c
      → HasDistinctKeys c.subscribers
      → push env locked (dup_channel_message name e) c ≡ some (c', es, n)
      → let a = api_on_events env locked read apps id (codes "POST") (b ∷ body) w in
        (a.code ≡ codes "200")
        × (a.progress.world ≡ push_at env locked (dup_channel_message name e) h w)
        × (a.progress.reply
            ≡ (channel, length (recipients env (dup_channel_message name e) c.subscribers)) ∷ [])
        × (count_told a.progress.effects ≡ 2)
  unfolding answer_events
  api_on_events-push locked read apps id name channel body b app e h w c c' es n e₁ e₂ e₃ e₄ e₅ e₆ d
        p =
      let m = dup_channel_message name e in
      let told : count_told ((es ++ cluster_push m.id ∷ []) ++ []) ≡ 1 =
        ap count_told (append-nil (es ++ cluster_push m.id ∷ []))
        ∙ Only-count_told c.uid es (cluster_push m.id ∷ [])
            (push-Only env locked m c c' es n p).0 in
      let number = (push_delivers env locked m c c' es n d p).1 in
      rw
        (
          api_on_events_run locked read apps id name channel body b app e h w e₁ e₂ e₃ e₄ e₅,
          push_registered-push locked m channel h w c c' es n e₆ p,
        )
        (refl, refl, ap (λ k. (channel, k) ∷ []) number, ap suc told)
