-- ===== src/NetworkClient/Modes.antt =====
-- clients/network.py with config.py: which methods the mode of the settings makes available.
use unifi_mcp.Settings as Settings
