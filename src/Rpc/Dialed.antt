-- ===== src/Rpc/Dialed.antt =====
-- A client of rpc.go over what package net and net/rpc give: DialRPCPlugin, `callOn`, and Close.
use vulpes_core.Base.{String, Option, none, some, Result, ok, err}
use vulpes_core.Capabilities.{Error, error_text}
use vulpes_core.Rpc.Wire.{Method, CallError, failed, Conn, Transport}

-- What is called on the world around the gateway.
pub record Net (W : Type 0) : Type 1 where
  -- `DialContext` of a network and an address, and `rpc.NewClient`
  pub dial_context : String → String → W → Result Error Conn × W
  -- `Call` of a `*rpc.Client`
  pub rpc_call : {Req Resp : Type 0} → Method Req Resp → Conn → Req → W → Result CallError Resp × W
  -- the error of the context, if it ends before the call that starts now
  pub context_ended : W → Option Error
  pub close : Conn → W → W

-- The fields of the client that a method reads.
pub record RpcPluginClient : Type 0 where
  pub instance_name : String
  pub network : String
  pub address : String
  pub client : Conn

module _ {W : Type 0} (net : Net W) where
  unfoldable pub dial_rpc_plugin : String → String → String → W → Result Error RpcPluginClient × W
  dial_rpc_plugin network address instance_name w =
      let (dialed, w') = net.dial_context network address w in
      elim dialed [
        | err e ↦ (err e, w')
        | ok conn ↦ (
          ok (record {
            instance_name = instance_name;
            network = network;
            address = address;
            client = conn;
          }),
          w',
        )
      ]

  -- `callOn`: a call that the end of the context overtakes goes on, and its answer is dropped.
  unfoldable pub call_on :
      {Req Resp : Type 0} → Method Req Resp → Conn → Req → W → Result CallError Resp × W
  call_on method conn req w =
      let (answered, w') = net.rpc_call method conn req w in
      elim (net.context_ended w) [
        | some e ↦ (err (failed (error_text e)), w')
        | none ↦ (answered, w')
      ]

  module _ (get : W → RpcPluginClient) (put : RpcPluginClient → W → W) where
    -- The methods of the client that stands in the world.
    abbrev pub client_transport : Transport W
    client_transport = record {
      call_on = call_on;
      dial = λ w. net.dial_context (get w).network (get w).address w;
      close = net.close;
      client = λ w. (get w).client;
      set_client = λ conn w. put (record (get w) { client = conn }) w;
    }

-- `Close` closes the current connection, and leaves it in the client.
unfoldable pub close_client : {W : Type 0} → Transport W → W → W
close_client t w = t.close (t.client w) w
