-- ===== src/LocalMcp.antt =====
-- memory/local_mcp/: the parts of the local MCP server that are modelled.
pub mod Framing
