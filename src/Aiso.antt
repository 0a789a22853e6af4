-- ===== src/Aiso.antt =====
-- src/AISO.h: the interface AISOBase and its implementation over a stream of boost::asio.
use mathlib.Core.List.{reverse}
use modem_tester.Common.{ℕ, ◌≡◌, refl, List, [], ◌∷◌, ◌++◌}
use modem_tester.Fsm.World.{
  Effect, write, write_some, async_read_some, async_read, cancel, wait_timer, cancel_timer,
  start_runnable, stop_runnable, wrong_event, written,
}

-- A stream of asio over the state `W` of the line, with the io_service `S`: its methods, and the
-- functions async_read and write of asio, which go on until the whole buffer is read or written. A
-- read names the object that is called back, and the size of the buffer. The second cancel gives the
-- number of its error code.
pub record AsyncStream (S W : Type 0) : Type 0 where
  pub get_io_service : S
  pub async_read_some : ℕ → ℕ → W → W
  pub async_read : ℕ → ℕ → W → W
  pub write_some : List ℕ → W → W
  pub write : List ℕ → W → W
  pub cancel : W → W
  pub cancel_ec : W → W × ℕ

-- The virtual methods of AISOBase.
pub record AisoBase (S W : Type 0) : Type 0 where
  pub get_io_service : S
  pub async_read_some : ℕ → ℕ → W → W
  pub async_read : ℕ → ℕ → W → W
  pub write_some : List ℕ → W → W
  pub write : List ℕ → W → W
  pub cancel : W → W
  pub cancel_ec : W → W × ℕ

module _ {S W : Type 0} where
  -- CreateFromStream: the methods of AISO<AsyncReadWriteStream>
  unfoldable pub create_from_stream : AsyncStream S W → AisoBase S W
  create_from_stream stream = record {
    get_io_service = stream.get_io_service;
    async_read_some = λ k size w. stream.async_read_some k size w;
    async_read = λ k size w. stream.async_read k size w;
    write_some = λ bytes w. stream.write_some bytes w;
    write = λ bytes w. stream.write bytes w;
    cancel = λ w. stream.cancel w;
    cancel_ec = λ w. stream.cancel_ec w;
  }

  -- What one effect of the machines does on the line; timers, threads and logs do nothing there.
  unfoldable perform : AisoBase S W → Effect → W → W
  perform io (write bytes) w = io.write bytes w
  perform io (write_some bytes) w = io.write_some bytes w
  perform io (async_read_some k size) w = io.async_read_some k size w
  perform io (async_read k size) w = io.async_read k size w
  perform io cancel w = (io.cancel_ec w).0
  perform io (wait_timer k d) w = w
  perform io (cancel_timer k) w = w
  perform io (start_runnable k) w = w
  perform io (stop_runnable k) w = w
  perform io (wrong_event e) w = w

  -- The effects of a trace, the newest of which is the first, in their order.
  unfoldable pub replay : AisoBase S W → List Effect → W → W
  unfolding perform
  replay io [] w = w
  replay io (e ∷ trace) w = perform io e (replay io trace w)

-- A stream that transmits whatever is written; the bytes on the line are the newest first.
pub record Transmits {S : Type 0} (stream : AsyncStream S (List ℕ)) : Type 0 where
  pub writes : (bytes line : List ℕ) → stream.write bytes line ≡ reverse bytes ++ line
  pub writes_some : (bytes line : List ℕ) → stream.write_some bytes line ≡ reverse bytes ++ line
  pub reads_some : (k size : ℕ) (line : List ℕ) → stream.async_read_some k size line ≡ line
  pub reads : (k size : ℕ) (line : List ℕ) → stream.async_read k size line ≡ line
  pub cancels : (line : List ℕ) → (stream.cancel_ec line).0 ≡ line

-- Over such a stream, replaying a trace through AISO puts on the line what `written` says of the
-- trace.
pub replay-written :
    {S : Type 0} (stream : AsyncStream S (List ℕ)) (trace : List Effect)
    → Transmits stream
    → replay (create_from_stream stream) trace [] ≡ written trace
unfolding replay create_from_stream written
replay-written stream [] t = refl
replay-written stream (write bs ∷ trace) t = rw (t.writes, replay-written stream trace t) refl
replay-written stream (write_some bs ∷ trace) t =
    rw (t.writes_some, replay-written stream trace t) refl
replay-written stream (async_read_some k n ∷ trace) t =
    rw t.reads_some (replay-written stream trace t)
replay-written stream (async_read k n ∷ trace) t = rw t.reads (replay-written stream trace t)
replay-written stream (cancel ∷ trace) t = rw t.cancels (replay-written stream trace t)
replay-written stream (wait_timer k d ∷ trace) t = replay-written stream trace t
replay-written stream (cancel_timer k ∷ trace) t = replay-written stream trace t
replay-written stream (start_runnable k ∷ trace) t = replay-written stream trace t
replay-written stream (stop_runnable k ∷ trace) t = replay-written stream trace t
replay-written stream (wrong_event e ∷ trace) t = replay-written stream trace t
