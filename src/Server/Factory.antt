-- ===== src/Server/Factory.antt =====
-- `eb_srv_factory_exec`, the handler of the workers.
use ebot.Base.{
  ℕ, ◌-◌, none, some, List, ◌++◌, leb, take, replicate, ◌==◌, if◌then◌else◌, Run, ok, fault, waits,
  ◌>>=◌,
}
use ebot.Ring.Locked.{pop_with_lock}
use ebot.Server.Pack.{pack_fd, pack_len, pack_buf, pack_size}
use ebot.Server.Types.{Srv, Net, Stream, stream_buf_size, eb_recv, eb_close, null}
use ebot.Workers.{Wunit}

module _ {K Q W : Type 0} (net : Net W) where
  -- The stream of a package, with zeros behind its bytes, and the call of its callback.
  unfoldable pub deliver : Srv K Q → (packed : List ℕ) → W → Run W
  deliver srv packed world =
      let len = pack_len packed in
      let stream : Stream = record {
        fd = pack_fd packed;
        buf_size = len;
        buf = take len (pack_buf packed) ++ replicate (stream_buf_size - len) 0;
        udata = srv.udata;
      } in
      let e = (if len == 0 then eb_close else eb_recv) in
      if leb len stream_buf_size
      then ok (if srv.callbacks e == null then world else net.call world (srv.callbacks e) stream)
      else fault

  -- `data` is what stands in the local variable of that name before the call. Where the ring is
  -- empty the worker reads its event descriptor, and sleeps there until the counter is not 0.
  unfoldable pub eb_srv_factory_exec : Wunit → Srv K Q → (junk : List ℕ) → W → Run (Wunit × W)
  unfolding deliver
  eb_srv_factory_exec u srv junk world = elim u.rq [
    | none ↦ fault
    | some rq ↦ (do
      (done, packed, rq) ← pop_with_lock rq junk pack_size
      let u : Wunit = record u { rq = some rq }
      if done
          then (do world ← deliver srv packed world; ok (u, world))
          else elim (net.efd_read world u.efd) [ none ↦ waits | some world ↦ ok (u, world) ])
  ]
