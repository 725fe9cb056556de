-- ===== src/Proto.antt =====
-- src/msg.pb.cc and include/msg.pb.h, the code of the messages of tool/msg.proto.
pub mod Enums
pub mod Fields
pub mod Loop
pub mod Node
pub mod Nodes
pub mod Msg
pub mod Union
